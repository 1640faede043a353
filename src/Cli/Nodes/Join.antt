-- ===== src/Cli/Nodes/Join.antt =====
-- Names that are joined by commas, and split again.
use halt_proof.Base.{
  suc, String, ◌<>◌, ◌≡◌, ◌≢◌, refl, ap, ap₂, ◌∙◌, true, some, List, [], ◌∷◌, length, map, All,
}
use halt_proof.Base.TextOrder.{not_equal}
use halt_proof.Base.Text.{strip}
use halt_proof.Cli.Nodes.{split_commas, node_list}
use halt_proof.Cli.Nodes.Split.{
  is_comma_free, commas, split_commas-is_comma_free, split_commas-first, length-split_commas,
}

-- `",".join(ns)`
unfoldable pub join_commas : List String → String
join_commas [] = ""
join_commas (n ∷ []) = n
join_commas (n ∷ (m ∷ ns)) = let rest = join_commas (m ∷ ns) in n <> ("," <> rest)

-- A name that survives the splitting: no comma in it, and no white space at its ends.
pub record IsPlain (n : String) : Type 0 where
  pub comma_free : is_comma_free n ≡ true
  pub stripped : strip n ≡ n

split_commas-join_commas :
    (n : String) (ns : List String)
    → All IsPlain (n ∷ ns)
    → split_commas (join_commas (n ∷ ns)) ≡ n ∷ ns
unfolding join_commas
split_commas-join_commas n [] plain = split_commas-is_comma_free n plain.0.comma_free
split_commas-join_commas n (m ∷ ns) plain =
    split_commas-first n (join_commas (m ∷ ns)) plain.0.comma_free
    ∙ ap (λ l. n ∷ l) (split_commas-join_commas m ns plain.1)

map-strip : (ns : List String) → All IsPlain ns → map strip ns ≡ ns
map-strip [] plain = refl
map-strip (n ∷ ns) plain = ap₂ ◌∷◌ plain.0.stripped (map-strip ns plain.1)

node_list-text : (s : String) → s ≢ "" → node_list (some s) ≡ some (map strip (split_commas s))
unfolding node_list
node_list-text s other = rw (node_list, not_equal s "" other) refl

-- Names with no comma and no white space at their ends, joined by commas, are read back as they
-- were, if the joined text is not empty.
pub node_list-join_commas :
    (n : String) (ns : List String)
    → All IsPlain (n ∷ ns)
    → join_commas (n ∷ ns) ≢ ""
    → node_list (some (join_commas (n ∷ ns))) ≡ some (n ∷ ns)
node_list-join_commas n ns plain other =
    node_list-text _ other
    ∙ ap (λ l. some (map strip l)) (split_commas-join_commas n ns plain)
    ∙ ap some (map-strip (n ∷ ns) plain)

length-map : (ns : List String) → length (map strip ns) ≡ length ns
length-map [] = refl
length-map (n ∷ ns) = ap suc (length-map ns)

-- A text that is not empty is read as one name more than it has commas: a comma at its end, or two
-- in a row, make an empty name, which is not left out.
pub length-node_list :
    (s : String)
    → s ≢ ""
    → (ns : List String) × (node_list (some s) ≡ some ns) × (length ns ≡ suc (commas s))
length-node_list s other = (
  map strip (split_commas s),
  node_list-text s other,
  length-map (split_commas s) ∙ length-split_commas s,
)
