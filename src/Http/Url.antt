-- ===== src/Http/Url.antt =====
-- client/http.py, `_server_url` and `_to_server_list`: server strings are normalised to URLs. What
-- Python's `re` and `urlparse` do is written out for the URLs that occur here, which begin with
-- `http://` or `https://` in any case.
pub mod Laws
use crate_python.Prelude.{
  ℕ, Bool, true, false, not, ◌&&◌, ◌||◌, Option, none, some, List, [], ◌∷◌, ◌++◌, Text, str, lower,
  starts_with, drop, ◌==◌, if◌then◌else◌, leb,
}
use crate_python.Exceptions.{builtin_error, value_error}
use crate_python.Exec.{Result, ok, err, out_of_fuel}

-- `.+`: one character at least, and no line break first.
pub begins_with_dot : Text → Bool
begins_with_dot [] = false
begins_with_dot (c ∷ s) = not (c == 10)

-- `https?://.+` at the start of a text, in any case: the scheme, and what follows `://`.
unfoldable pub http_match : Text → Option (Text × Text)
unfolding begins_with_dot
http_match s =
    if starts_with (lower s) (str "https://") && begins_with_dot (drop 8 s)
    then some (str "https", drop 8 s)
    else if starts_with (lower s) (str "http://") && begins_with_dot (drop 7 s)
    then some (str "http", drop 7 s)
    else none

pub ends_netloc : ℕ → Bool
ends_netloc c = c == b'/' || c == b'?' || c == b'#'

-- The network location: what stands before the path, the query or the fragment.
unfoldable pub netloc : Text → Text
unfolding ends_netloc
netloc [] = []
netloc (c ∷ s) = let rest = netloc s in if ends_netloc c then [] else c ∷ rest

unfoldable pub has_char : ℕ → Text → Bool
has_char c [] = false
has_char c (d ∷ s) = d == c || has_char c s

abbrev same : Bool → Bool → Bool
same true b = b
same false b = not b

-- `urlparse` refuses an opening bracket with no closing one, and the other way round.
unfoldable pub url_of : Text → Text → Result Text
unfolding has_char
url_of scheme n =
    if same (has_char b'[' n) (has_char b']' n)
    then ok (scheme ++ (str "://" ++ n))
    else err (builtin_error value_error (str "Invalid IPv6 URL"))

abbrev pub url_from : Text → Option (Text × Text) → Result Text
url_from s none = url_of (str "http") (netloc s)
url_from s (some (scheme, rest)) = url_of scheme (netloc rest)

unfoldable pub server_url : Text → Result Text
server_url s = url_from s (http_match s)

-- `str.split()` cuts at each run of white space.
is_space : ℕ → Bool
is_space c =
    (leb 9 c && leb c 13)
    || ((leb 28 c && leb c 32)
        || (c == 133
            || (c == 160
                || (c == 5760
                    || ((leb 8192 c && leb c 8202)
                        || (c == 8232
                            || (c == 8233 || (c == 8239 || (c == 8287 || c == 12288)))))))))

abbrev push_word : Text → List Text → List Text
push_word [] words = words
push_word (c ∷ s) words = (c ∷ s) ∷ words

-- The words of a text, the first of them continuing `word`.
split_from : Text → Text → List Text
split_from word [] = push_word word []
split_from word (c ∷ s) = elim (is_space c) [
  | true ↦ push_word word (split_from [] s)
  | false ↦ split_from (word ++ c ∷ []) s
]

unfoldable pub split : Text → List Text
unfolding split_from is_space
split = split_from []

-- The loop of the list comprehension: the first server that is no URL ends it.
unfoldable pub server_urls : List Text → Result (List Text)
server_urls [] = ok []
server_urls (s ∷ rest) = elim (server_url s) [
  | ok url ↦ elim (server_urls rest) [
    | ok urls ↦ ok (url ∷ urls)
    | err e ↦ err e
    | out_of_fuel ↦ out_of_fuel
  ]
  | err e ↦ err e
  | out_of_fuel ↦ out_of_fuel
]

-- The argument `servers`: a text with white space between servers, or a list.
pub data Servers : Type 0 where
  one_text : Text → Servers
  many : List Text → Servers

unfoldable pub to_server_list : Servers → Result (List Text)
to_server_list (one_text t) = server_urls (split t)
to_server_list (many ss) = server_urls ss
