-- ===== src/EntityName.antt =====
-- packages/cre-workflows/src/scoring/nameScore.ts: the canonical form of a legal entity's name. The
-- Unicode folding is the platform's; the rest works on code units.
use securtxn.Prelude.{
  ℕ, Bool, false, not, Option, none, some, List, [], ◌∷◌, ◌++◌, Text, codes, text_eq, text_lt, any,
  filter, if◌then◌else◌, one_of, is_space,
}
use securtxn.Platform.{Platform}

abbrev suffixes : List Text
suffixes =
    codes "pvt"
    ∷ codes "private"
    ∷ codes "ltd"
    ∷ codes "limited"
    ∷ codes "llp"
    ∷ codes "llc"
    ∷ codes "inc"
    ∷ codes "incorporated"
    ∷ codes "corp"
    ∷ codes "corporation"
    ∷ codes "co"
    ∷ codes "company"
    ∷ codes "gmbh"
    ∷ codes "bv"
    ∷ codes "sa"
    ∷ codes "ag"
    ∷ codes "plc"
    ∷ codes "pte"
    ∷ codes "srl"
    ∷ codes "oy"
    ∷ codes "ab"
    ∷ []

abbrev member : Text → List Text → Bool
member t ts = any (λ u. text_eq u t) ts

-- `/[.,'"()&\-/]/g` becomes a space.
abbrev blank : ℕ → ℕ
blank c = if one_of c (codes ".,'\"()&-/") then 0x20 else c

-- The pieces between runs of white space; an empty piece is dropped by the filter that follows.
split_space : Text → Text → List Text
split_space word [] = word ∷ []
split_space word (c ∷ t) =
    let closed = word ∷ split_space [] t in
    let longer = split_space (word ++ c ∷ []) t in if is_space c then closed else longer

abbrev blanked : Text → Text
blanked [] = []
blanked (c ∷ t) = blank c ∷ blanked t

abbrev is_token : Text → Bool
is_token [] = false
is_token (c ∷ t) = not (member (c ∷ t) suffixes)

unfoldable pub normalise_entity_name : Platform → Text → List Text
unfolding split_space text_eq
normalise_entity_name pf value = filter is_token (split_space [] (blanked (pf.fold_text value)))

-- `[...new Set(tokens)]`: the first of each.
unfoldable pub dedupe : List Text → List Text → List Text
dedupe seen [] = []
dedupe seen (t ∷ ts) =
    let rest = dedupe (t ∷ seen) ts in
    let again = dedupe seen ts in if member t seen then again else t ∷ rest

unfoldable pub insert_text : Text → List Text → List Text
insert_text t [] = t ∷ []
insert_text t (u ∷ us) = if text_lt u t then u ∷ insert_text t us else t ∷ u ∷ us

unfoldable pub sort_texts : List Text → List Text
sort_texts [] = []
sort_texts (t ∷ ts) = insert_text t (sort_texts ts)

abbrev join_space : List Text → Text
join_space [] = []
join_space (t ∷ []) = t
join_space (t ∷ u ∷ us) = t ++ 0x20 ∷ join_space (u ∷ us)

abbrev unless_empty : List Text → Option Text
unless_empty [] = none
unless_empty (t ∷ ts) = some (join_space (t ∷ ts))

unfoldable pub canonical_tokens : List Text → Option Text
unfolding dedupe sort_texts insert_text
canonical_tokens tokens = unless_empty (sort_texts (dedupe [] tokens))

unfoldable pub canonical_entity_name : Platform → Text → Option Text
unfolding canonical_tokens normalise_entity_name
canonical_entity_name pf value = canonical_tokens (normalise_entity_name pf value)
