-- ===== src/Sqlalchemy/Ddl/Options.antt =====
-- What the options of a table come to.
use crate_python.Prelude.Dict.{lookup, Dict, NodupKeys, lookup-insert, insert}
use crate_python.Prelude.{
  drop, ◌∷◌, refl, none, some, true, [], Text, Option, Bool, ◌≡◌, List, if◌then◌else◌, text_eq,
  ◌++◌, ◌||◌, arith, append-nil, text_eq_iff, str, append_assoc, false, starts_with, inl, inr,
  Bool-cases,
}
use crate_python.Sqlalchemy.Ddl.{
  Clauses, add_option, add_options, partitioned_by, number_of_shards, clustered_by, partitioned,
  shards, by_column, crate_opts, or_empty, with_clustered, upper,
}

-- The template of a clustered option
abbrev pub clustered_text : Text → Text → Text
clustered_text k v = if text_eq k number_of_shards then shards v else by_column v

abbrev pub is_clustered : Text → Bool
is_clustered k = text_eq k number_of_shards || text_eq k clustered_by

abbrev pub chosen : Text → Option Text → Option Text → Option Text
chosen k none old = old
chosen k (some v) old = some (clustered_text k v)

abbrev pub partitioned_clause : Option Text → Text
partitioned_clause none = []
partitioned_clause (some v) = partitioned v

pub special-add_options :
    (opts : Dict Text) (c : Clauses)
    → NodupKeys opts
    → (add_options opts c).special_options
      ≡ c.special_options ++ partitioned_clause (lookup partitioned_by opts)
unfolding add_options add_option lookup
special-add_options [] c n = ground (arith, append-nil c.special_options)
special-add_options ((k, v) ∷ opts) c (new, n) = ground (
  arith,
  special-add_options opts (add_option k v c) n,
  text_eq_iff k partitioned_by,
  new,
  append_assoc c.special_options (partitioned v) [],
  append-nil (c.special_options ++ partitioned v),
  append-nil (partitioned v),
)

keys_apart :
    (text_eq partitioned_by number_of_shards ≡ false)
    × (text_eq partitioned_by clustered_by ≡ false)
    × (text_eq number_of_shards clustered_by ≡ false)
unfolding text_eq str
keys_apart = (refl, refl, refl)

pub clustered-add_options :
    (k : Text) (opts : Dict Text) (c : Clauses)
    → is_clustered k ≡ true
    → NodupKeys opts
    → lookup k (add_options opts c).clustered_options
      ≡ chosen k (lookup k opts) (lookup k c.clustered_options)
unfolding add_options add_option lookup
clustered-add_options k [] c e n = refl
clustered-add_options k ((j, v) ∷ opts) c e (new, n) = ground (
  arith,
  clustered-add_options k opts (add_option j v c) e n,
  text_eq_iff j partitioned_by,
  text_eq_iff j number_of_shards,
  text_eq_iff j clustered_by,
  text_eq_iff k number_of_shards,
  text_eq_iff k clustered_by,
  text_eq_iff j k,
  lookup-insert j k (shards v) c.clustered_options,
  lookup-insert j k (by_column v) c.clustered_options,
  new,
  keys_apart,
)

abbrev pub other_options : Dict Text → List Text
other_options [] = []
other_options ((k, v) ∷ opts) =
    let rest = other_options opts in
    if text_eq k partitioned_by || is_clustered k then rest else (k ++ (str " = " ++ v)) ∷ rest

pub table_opts-add_options :
    (opts : Dict Text) (c : Clauses)
    → (add_options opts c).table_opts ≡ c.table_opts ++ other_options opts
unfolding add_options add_option
table_opts-add_options [] c = ground (arith, append-nil c.table_opts)
table_opts-add_options ((k, v) ∷ opts) c = ground (
  arith,
  table_opts-add_options opts (add_option k v c),
  append_assoc c.table_opts ((k ++ (str " = " ++ v)) ∷ []) (other_options opts),
  text_eq_iff k number_of_shards,
  text_eq_iff k clustered_by,
  text_eq_iff k partitioned_by,
)

NodupKeys-insert : (k v : Text) (d : Dict Text) → NodupKeys d → NodupKeys (insert k v d)
unfolding lookup insert
NodupKeys-insert k v [] n = (refl, tt)
NodupKeys-insert k v ((j, w) ∷ d) (new, n) = ground (
  arith,
  NodupKeys-insert k v d n,
  lookup-insert k j v d,
  text_eq_iff j k,
  text_eq_iff k j,
  new,
  n,
)

if-NodupKeys :
    (b : Bool) (d d' : Dict Text) → NodupKeys d → NodupKeys d' → NodupKeys (if b then d else d')
if-NodupKeys true d d' n n' = n
if-NodupKeys false d d' n n' = n'

pub crate_opts-NodupKeys :
    (kwargs opts : Dict Text) → NodupKeys opts → NodupKeys (crate_opts kwargs opts)
unfolding crate_opts
crate_opts-NodupKeys [] opts n = n
crate_opts-NodupKeys ((k, v) ∷ kwargs) opts n = crate_opts-NodupKeys kwargs _ (
    if-NodupKeys (starts_with k (str "crate_")) _ opts
      (NodupKeys-insert (upper (drop 6 k)) v opts n) n)

abbrev pub AreClustered : Dict Text → Type 0
AreClustered [] = Unit
AreClustered ((k, v) ∷ d) = (is_clustered k ≡ true) × AreClustered d

insert-AreClustered :
    (k v : Text) (d : Dict Text)
    → is_clustered k ≡ true
    → AreClustered d
    → AreClustered (insert k v d)
unfolding insert
insert-AreClustered k v [] e h = (e, tt)
insert-AreClustered k v ((j, w) ∷ d) e (f, h) = ground (arith, insert-AreClustered k v d e h, f, h)

add_option-AreClustered :
    (k v : Text) (c : Clauses)
    → AreClustered c.clustered_options
    → AreClustered (add_option k v c).clustered_options
unfolding add_option
add_option-AreClustered k v c h = elim (Bool-cases (text_eq k partitioned_by)) [
  | inl e ↦ rw e h
  | inr e ↦ elim (Bool-cases (text_eq k number_of_shards)) [
    | inl f ↦ rw (e, f) (insert-AreClustered k (shards v) c.clustered_options (rw f refl) h)
    | inr f ↦ elim (Bool-cases (text_eq k clustered_by)) [
      | inl g ↦
          rw (e, f, g) (insert-AreClustered k (by_column v) c.clustered_options (rw (f, g) refl) h)
      | inr g ↦ rw (e, f, g) h
    ]
  ]
]

pub add_options-AreClustered :
    (opts : Dict Text) (c : Clauses)
    → AreClustered c.clustered_options
    → AreClustered (add_options opts c).clustered_options
unfolding add_options add_option
add_options-AreClustered [] c h = h
add_options-AreClustered ((k, v) ∷ opts) c h =
    add_options-AreClustered opts (add_option k v c) (add_option-AreClustered k v c h)

abbrev pub clustered_clause : Option Text → Option Text → Text
clustered_clause none none = []
clustered_clause by_clause shards_clause =
    str " CLUSTERED" ++ (or_empty by_clause ++ or_empty shards_clause)

pub with_clustered_lem :
    (d : Dict Text)
    → AreClustered d
    → with_clustered d ≡ clustered_clause (lookup clustered_by d) (lookup number_of_shards d)
unfolding with_clustered lookup
with_clustered_lem [] h = refl
with_clustered_lem ((k, v) ∷ d) (e, h) = ground (arith, e)
