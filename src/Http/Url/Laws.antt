-- ===== src/Http/Url/Laws.antt =====
-- `_server_url` is a normal form.
use crate_python.Exec.{ok}
use crate_python.Http.Url.{netloc, http_match, begins_with_dot, url_of, server_url, url_from}
use crate_python.Prelude.{
  refl, some, true, [], Text, str, ◌≡◌, lower, ◌∷◌, starts_with, arith, ◌++◌, none, false, inl, inr,
  ◌⊎◌, Bool-cases, ◌≢◌, ◌&&◌, drop, Option, ◌∙◌, subst, sym, ap,
}

-- A text with no character that ends a network location.
netloc_idem : (s : Text) → netloc (netloc s) ≡ netloc s
unfolding netloc
netloc_idem [] = refl
netloc_idem (c ∷ s) = ground (arith, netloc_idem s)

-- With a character to match, an `http` or `https` URL is matched as its scheme and the rest.
http_match-http :
    (n : Text) → begins_with_dot n ≡ true → http_match (str "http://" ++ n) ≡ some (str "http", n)
unfolding http_match str lower starts_with
http_match-http n h = rw h

http_match-https :
    (n : Text) → begins_with_dot n ≡ true → http_match (str "https://" ++ n) ≡ some (str "https", n)
unfolding http_match str lower starts_with
http_match-https n h = rw h

http_match-http_none :
    (n : Text) → begins_with_dot n ≡ false → http_match (str "http://" ++ n) ≡ none
unfolding http_match str lower starts_with
http_match-http_none n h = rw h

http_match-https_none :
    (n : Text) → begins_with_dot n ≡ false → http_match (str "https://" ++ n) ≡ none
unfolding http_match str lower starts_with
http_match-https_none n h = rw h

-- What `http_match` can find.
http_match_cases :
    (s : Text)
    → (http_match s ≡ none)
      ⊎ ((rest : Text) × (http_match s ≡ some (str "https", rest)))
      ⊎ ((rest : Text) × (http_match s ≡ some (str "http", rest)))
unfolding http_match
http_match_cases s =
    elim (Bool-cases (starts_with (lower s) (str "https://") && begins_with_dot (drop 8 s))) [
      | inl e ↦ inr (inl (drop 8 s, rw e))
      | inr e ↦
          elim (Bool-cases (starts_with (lower s) (str "http://") && begins_with_dot (drop 7 s))) [
            | inl f ↦ inr (inr (drop 7 s, rw (e, f)))
            | inr f ↦ inl (rw (e, f))
          ]
    ]

url_of-ok : (scheme n u : Text) → url_of scheme n ≡ ok u → scheme ++ (str "://" ++ n) ≡ u
unfolding url_of
url_of-ok scheme n u h = ground arith

server_url_by :
    (s : Text) (m : Option (Text × Text)) → http_match s ≡ m → server_url s ≡ url_from s m
unfolding server_url
server_url_by s m e = ap (url_from s) e

again_http :
    (n u : Text)
    → begins_with_dot (netloc n) ≡ true
    → url_of (str "http") (netloc n) ≡ ok u
    → server_url (str "http://" ++ netloc n) ≡ ok u
again_http n u d h = server_url_by _ _ (http_match-http (netloc n) d) ∙ rw netloc_idem h

again_https :
    (n u : Text)
    → begins_with_dot (netloc n) ≡ true
    → url_of (str "https") (netloc n) ≡ ok u
    → server_url (str "https://" ++ netloc n) ≡ ok u
again_https n u d h = server_url_by _ _ (http_match-https (netloc n) d) ∙ rw netloc_idem h

stays_http :
    (n u : Text) → url_of (str "http") (netloc n) ≡ ok u → http_match u ≢ none → server_url u ≡ ok u
stays_http n u h m = elim (Bool-cases (begins_with_dot (netloc n))) [
  | inl d ↦ subst (λ v. server_url v ≡ ok u) (url_form n u h) (again_http n u d h)
  | inr d ↦
      absurd
        (m (subst (λ v. http_match v ≡ none) (url_form n u h) (http_match-http_none (netloc n) d)))
]
  where
    url_form : (n u : Text) → url_of (str "http") (netloc n) ≡ ok u → str "http://" ++ netloc n ≡ u
    url_form n u h = unfold str in url_of-ok (str "http") (netloc n) u h

stays_https :
    (n u : Text)
    → url_of (str "https") (netloc n) ≡ ok u
    → http_match u ≢ none
    → server_url u ≡ ok u
stays_https n u h m = elim (Bool-cases (begins_with_dot (netloc n))) [
  | inl d ↦ subst (λ v. server_url v ≡ ok u) (url_form n u h) (again_https n u d h)
  | inr d ↦
      absurd
        (m (subst (λ v. http_match v ≡ none) (url_form n u h) (http_match-https_none (netloc n) d)))
]
  where
    url_form :
        (n u : Text) → url_of (str "https") (netloc n) ≡ ok u → str "https://" ++ netloc n ≡ u
    url_form n u h = unfold str in url_of-ok (str "https") (netloc n) u h

normal :
    (s u : Text)
    → (http_match s ≡ none)
      ⊎ ((rest : Text) × (http_match s ≡ some (str "https", rest)))
      ⊎ ((rest : Text) × (http_match s ≡ some (str "http", rest)))
    → server_url s ≡ ok u
    → http_match u ≢ none
    → server_url u ≡ ok u
normal s u (inl e) h m = stays_http s u (sym (server_url_by s _ e) ∙ h) m
normal s u (inr (inl (rest, e))) h m = stays_https rest u (sym (server_url_by s _ e) ∙ h) m
normal s u (inr (inr (rest, e))) h m = stays_http rest u (sym (server_url_by s _ e) ∙ h) m

-- Normalising a server's URL is idempotent: if a server string gives a URL that has a host (one
-- that the pattern `https?://.+` matches), then that URL is its own normal form.
pub server_url_idem : (s u : Text) → server_url s ≡ ok u → http_match u ≢ none → server_url u ≡ ok u
server_url_idem s u = normal s u (http_match_cases s)
