-- ===== src/Trust/Urls.antt =====
-- libs/trust/edges.py, canonical_url. urllib, str.strip and str.casefold are parameters.
use pi_news_aggregator.Prelude.{
  ℕ, Bool, false, ◌||◌, Option, none, some, List, [], ◌∷◌, ◌++◌, Text, codes, nonempty, drop,
  length, starts_with, ◌==◌, nat_eq, list_eq, if◌then◌else◌,
}

-- urlsplit(…)
pub record Parts : Type 0 where
  pub netloc : Text
  pub path : Text
  pub query : Text

pub record Urllib : Type 0 where
  -- `none` is a ValueError.
  pub urlsplit : Text → Option Parts
  -- parse_qsl(…, keep_blank_values=True)
  pub parse_qsl : Text → List (Text × Text)
  pub urlencode : List (Text × Text) → Text
  pub strip : Text → Text
  pub casefold : Text → Text

abbrev pub tracking_prefixes : List Text
tracking_prefixes = codes "utm_" ∷ codes "fbclid" ∷ codes "gclid" ∷ codes "mc_" ∷ codes "ref_" ∷ []

-- s.startswith(prefixes)
unfoldable pub starts_with_any : Text → List Text → Bool
starts_with_any t [] = false
starts_with_any t (p ∷ ps) = starts_with t p || starts_with_any t ps

-- The parameters that are not for tracking
unfoldable pub kept_params : (Text → Text) → List (Text × Text) → List (Text × Text)
unfolding starts_with_any
kept_params casefold [] = []
kept_params casefold ((k, v) ∷ params) =
    let rest = kept_params casefold params in
    if starts_with_any (casefold k) tracking_prefixes then rest else (k, v) ∷ rest

-- s.removeprefix(prefix)
abbrev pub remove_prefix : Text → Text → Text
remove_prefix p t = if starts_with t p then drop (length p) t else t

-- s.rstrip(c)
unfoldable pub rstrip : ℕ → Text → Text
rstrip c [] = []
rstrip c (x ∷ xs) =
    let rest = rstrip c xs in if nonempty rest then x ∷ rest else if x == c then [] else x ∷ []

unfoldable pub canonical_parts : Urllib → Parts → Text
unfolding kept_params rstrip
canonical_parts lib parts =
    let host = remove_prefix (codes "www.") (lib.casefold parts.netloc) in
    let query = lib.urlencode (kept_params lib.casefold (lib.parse_qsl parts.query)) in
    if nonempty host
    then host ++ rstrip 47 parts.path ++ (if nonempty query then codes "?" ++ query else [])
    else []

unfoldable pub canonical_url : Urllib → Text → Text
unfolding canonical_parts
canonical_url lib url = elim (lib.urlsplit (lib.strip url)) [
  | none ↦ []
  | some parts ↦ canonical_parts lib parts
]
