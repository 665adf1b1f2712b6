-- ===== src/Connection/Lowest.antt =====
-- `_lowest_server_version` finds the lowest version of the servers that answer.
use crate_python.Exec.Runs.{bind-ok}
use crate_python.Connection.{
  Parsed, lower_version, lower_by, version_at, or_zero, lowest_loop, lowest_server_version,
}
use crate_python.Version.{Version, version_lt, key}
use crate_python.Http.Client.{Env, Config, Client}
use crate_python.Prelude.{
  refl, none, some, false, [], inl, Option, List, ◌∷◌, ℕ, ◌≡◌, All, Text, ◌⊎◌, text_lt_irrefl, inr,
  Bool-cases, text_lt, ap, if◌then◌else◌, ◌∙◌, text_not_lt_trans, text_lt_asymm,
}
use crate_python.Exec.{◌>>=◌, Exec, pure, Result, ok, lift}
use crate_python.Json

-- The servers are asked in turn: each is skipped, or reports the next of the versions.
pub data Reports (lib : Json.Library) (env : Env) (cfg : Config) (fuel : ℕ)
    : List Text → Client → List Version → Client → Type 0 where
  done : (c : Client) → Reports lib env cfg fuel [] c [] c
  skipped :
      {server : Text} {rest : List Text} {vs : List Version} {c d c' : Client}
      → version_at lib env cfg fuel server c ≡ (ok none, d)
      → Reports lib env cfg fuel rest d vs c'
      → Reports lib env cfg fuel (server ∷ rest) c vs c'
  reported :
      {server : Text} {rest : List Text} {v : Version} {vs : List Version} {c d c' : Client}
      → version_at lib env cfg fuel server c ≡ (ok (some (Parsed.known v)), d)
      → Reports lib env cfg fuel rest d vs c'
      → Reports lib env cfg fuel (server ∷ rest) c (v ∷ vs) c'

lower : Option Version → Version → Version
lower none v = v
lower (some l) v = if version_lt v l then v else l

unfoldable pub lowest_of : Option Version → List Version → Option Version
unfolding lower
lowest_of lowest [] = lowest
lowest_of lowest (v ∷ vs) = lowest_of (some (lower lowest v)) vs

abbrev pub IsIn : Version → List Version → Type 0
IsIn v [] = ⊥
IsIn v (w ∷ vs) = (v ≡ w) ⊎ IsIn v vs

-- No version of the list is below `l`, and `l` is one of them.
abbrev pub IsLowest : Version → List Version → Type 0
IsLowest l vs = All (λ v. version_lt v l ≡ false) vs × IsIn l vs

-- Going on with the list from `l` ends in a version that is `l` or in the list, and is below
-- neither.
lowest_of-from :
    (l : Version) (vs : List Version)
    → (m : Version) × (lowest_of (some l) vs ≡ some m)
      × (version_lt l m ≡ false)
      × All (λ v. version_lt v m ≡ false) vs
      × ((m ≡ l) ⊎ IsIn m vs)
unfolding lowest_of version_lt lower
lowest_of-from l [] = (l, refl, text_lt_irrefl (key l), tt, inl refl)
lowest_of-from l (v ∷ vs) = elim (Bool-cases (text_lt (key v) (key l))) [
  | inl below ↦
      let (m, e, h, all, found) = lowest_of-from v vs in
      (
        m,
        ap (λ b. lowest_of (some (if b then v else l)) vs) below ∙ e,
        text_not_lt_trans (key l) (key v) (key m) (text_lt_asymm (key v) (key l) below) h,
        (h, all),
        inr found,
      )
  | inr above ↦
      let (m, e, h, all, found) = lowest_of-from l vs in
      (
        m,
        ap (λ b. lowest_of (some (if b then v else l)) vs) above ∙ e,
        h,
        (text_not_lt_trans (key v) (key l) (key m) above h, all),
        or_later found,
      )
]
  where
    or_later : {m : Version} → (m ≡ l) ⊎ IsIn m vs → (m ≡ l) ⊎ ((m ≡ v) ⊎ IsIn m vs)
    or_later (inl e) = inl e
    or_later (inr i) = inr (inr i)

-- The lowest of the versions is none of them above another, and one of them.
lowest_of-IsLowest :
    (v : Version) (vs : List Version)
    → (m : Version) × (lowest_of none (v ∷ vs) ≡ some m) × IsLowest m (v ∷ vs)
unfolding lowest_of lower
lowest_of-IsLowest v vs =
    let (m, e, h, all, found) = lowest_of-from v vs in (m, e, ((h, all), found))

parsed : Option Version → Option Parsed
parsed none = none
parsed (some v) = some (Parsed.known v)

lower_by-reported :
    (lowest : Option Version) (v : Version)
    → lower_by (parsed lowest) (some (Parsed.known v)) ≡ ok (parsed (some (lower lowest v)))
unfolding lower_by lower_version lower parsed
lower_by-reported none v = refl
lower_by-reported (some l) v = refl

module _ (lib : Json.Library) (env : Env) (cfg : Config) (fuel : ℕ) where
  abbrev loop_of : List Text → Option Parsed → Exec Client (Option Parsed)
  loop_of = lowest_loop lib env cfg fuel

  -- A round of the loop in which the server gives `told`, and the lowest version is then `next`.
  lowest_loop-round :
      (server : Text) (rest : List Text) (c d : Client) (lowest next told : Option Parsed)
      → version_at lib env cfg fuel server c ≡ (ok told, d)
      → lower_by lowest told ≡ ok next
      → loop_of (server ∷ rest) lowest c ≡ loop_of rest next d
  unfolding lowest_loop lift
  lowest_loop-round server rest c d lowest next told e l =
      bind-ok (version_at lib env cfg fuel server) (λ v. lift (lower_by lowest v) >>= loop_of rest)
        c told d e
      ∙ bind-ok (lift (lower_by lowest told)) (loop_of rest) d next d
          (ap {B = Result (Option Parsed) × Client} (λ r. (r, d)) l)

  lowest_loop-Reports :
      {servers : List Text} {c c' : Client} {vs : List Version} (lowest : Option Version)
      → Reports lib env cfg fuel servers c vs c'
      → loop_of servers (parsed lowest) c ≡ (ok (parsed (lowest_of lowest vs)), c')
  unfolding lowest_of lowest_loop lower_by parsed pure
  lowest_loop-Reports lowest (done c) = refl
  lowest_loop-Reports lowest (skipped e rest) =
      lowest_loop-round _ _ _ _ (parsed lowest) _ _ e refl ∙ lowest_loop-Reports lowest rest
  lowest_loop-Reports lowest (reported {v = v} e rest) =
      lowest_loop-round _ _ _ _ (parsed lowest) _ _ e (lower_by-reported lowest v)
      ∙ lowest_loop-Reports (some (lower lowest v)) rest

-- If the active servers, asked in turn, are skipped or report the versions `v` and `vs`, then the
-- connection's lowest server version is one of these, and none of them is below it.
pub lowest_server_version_lem :
    (lib : Json.Library) (env : Env) (cfg : Config) (fuel : ℕ) (v : Version) (vs : List Version)
    (c c' : Client)
    → Reports lib env cfg fuel c.active c (v ∷ vs) c'
    → (m : Version) × (lowest_server_version lib env cfg fuel c ≡ (ok (Parsed.known m), c'))
      × IsLowest m (v ∷ vs)
unfolding lowest_server_version parsed
lowest_server_version_lem lib env cfg fuel v vs c c' reports =
    let (m, f, low) = lowest_of-IsLowest v vs in
    (
      m,
      bind-ok (lowest_loop lib env cfg fuel c.active none) (λ l. pure (or_zero l)) c
            (parsed (lowest_of none (v ∷ vs))) c'
            (lowest_loop-Reports lib env cfg fuel none reports)
          ∙ ap {B = Result Parsed × Client} (λ o. (ok (or_zero (parsed o)), c')) f,
      low,
    )
