-- ===== src/OptKeyValue.antt =====
-- include/OptionPlugin.hpp and src/Passes/CGRAOmpComponents/OptionPlugin.cpp: command line options of
-- the form key=value. A string is the list of its characters' codes.
use cgraomp.Prelude.{ℕ, Bool, true, false, ◌&&◌, List, [], ◌∷◌, ◌++◌, eqb, if◌then◌else◌}
pub mod RoundTrip

abbrev pub Text : Type 0
Text = List ℕ

-- '='
abbrev pub equals_sign : ℕ
equals_sign = 61

pub record OptKeyValue : Type 0 where
  pub key : Text
  pub value : Text
  pub valid : Bool

-- The text in front of the first match of the pattern, and the texts behind each match.
unfoldable pub split : Text → Text × List Text
split [] = ([], [])
split (c ∷ cs) =
    let (token, tokens) = split cs in
    if eqb c equals_sign then ([], token ∷ tokens) else (c ∷ token, tokens)

-- Behind the last match an empty text is no token.
unfoldable pub drop_empty_suffix : List Text → List Text
drop_empty_suffix [] = []
drop_empty_suffix ([] ∷ []) = []
drop_empty_suffix (token ∷ tokens) = token ∷ drop_empty_suffix tokens

-- `sregex_token_iterator` with the submatch -1
unfoldable pub tokens_of : Text → List Text
unfolding split drop_empty_suffix
tokens_of s = let (token, tokens) = split s in token ∷ drop_empty_suffix tokens

-- The constructor from two strings.
unfoldable pub new_key_value : Text → Text → OptKeyValue
new_key_value key value = record { key = key; value = value; valid = true }

-- Exactly two texts make a pair.
unfoldable pub of_tokens : List Text → OptKeyValue
unfolding new_key_value
of_tokens (key ∷ value ∷ []) = new_key_value key value
of_tokens _ = record { key = []; value = []; valid = false }

-- The constructor from one string.
unfoldable pub parse : Text → OptKeyValue
unfolding tokens_of of_tokens
parse keyvalue = of_tokens (tokens_of keyvalue)

-- `operator<<`
unfoldable pub print : OptKeyValue → Text
print d = d.key ++ equals_sign ∷ d.value
