-- ===== src/Entities/Store/Tests.antt =====
-- Runs of the store of in_memory.py.
use caqrs.Prelude.{String, List, [], ◌∷◌, none, some, ◌≡◌, ◌⊎◌, refl}
use caqrs.Prelude.Dict.{get, put, remove}
use caqrs.Prelude.Assoc.{find, store, discard}
use caqrs.Entities.Types.{Identifier, jquants_code, edinet_code, same_key, Issuer}
use caqrs.Entities.Store.{
  InMemoryEntityStore, returned, identifier_conflict, has_key, upsert_issuer, lookup_issuer,
  merge_issuers, conflict_in, forget, assign, identifier_union, relink, transfer,
  transfer_market_points,
}
use caqrs.Entities.Store.Merge.{merged_record, merge_issuers-IsIndexed}
use caqrs.Entities.Store.Index.{IsIndexed, upsert_issuer-IsIndexed, lookup_issuer-upsert_issuer}

abbrev toyota_code : Identifier
toyota_code = record { kind = jquants_code; value = "7203" }

abbrev toyota_edinet : Identifier
toyota_edinet = record { kind = edinet_code; value = "E02144" }

abbrev issuer_of : String → List Identifier → Issuer
issuer_of id identifiers = record {
  id = id;
  lei = none;
  jcn = none;
  display_name = "Toyota";
  identifiers = identifiers;
}

abbrev first : Issuer
first = issuer_of "I1" (toyota_code ∷ [])

abbrev second : Issuer
second = issuer_of "I2" (toyota_edinet ∷ [])

abbrev empty : InMemoryEntityStore String
empty = record { issuers = []; identifiers = []; market_points = []; filings = []; relations = [] }

abbrev one_issuer : InMemoryEntityStore String
one_issuer = record empty { issuers = ("I1", first) ∷ []; identifiers = (toyota_code, "I1") ∷ [] }

abbrev two_issuers : InMemoryEntityStore String
two_issuers = record empty {
  issuers = ("I1", first) ∷ ("I2", second) ∷ [];
  identifiers = (toyota_code, "I1") ∷ (toyota_edinet, "I2") ∷ [];
}

upsert-two : (upsert_issuer one_issuer second).1 ≡ two_issuers
unfolding upsert_issuer conflict_in forget assign find store discard get put same_key has_key
upsert-two = refl

-- The second issuer's identifier becomes the first one's.
merge-two : (merge_issuers two_issuers "I1" "I2").1 ≡ record empty {
  issuers = ("I1", issuer_of "I1" (toyota_code ∷ toyota_edinet ∷ [])) ∷ [];
  identifiers = (toyota_code, "I1") ∷ (toyota_edinet, "I1") ∷ [];
}
unfolding merge_issuers identifier_union relink transfer transfer_market_points upsert_issuer
    conflict_in forget assign find store discard get put remove same_key has_key
merge-two = refl

none-some : (id : String) → none ≡ some id → ⊥
none-some id h = cc

none_found : (i : Issuer) → none ≡ some i → ⊥
none_found i h = cc

empty-IsIndexed : IsIndexed empty
unfolding find get
empty-IsIndexed = record {
  owned = λ k id h. absurd (none-some id h);
  assigned = λ k id i h has. absurd (none_found i h);
  named = λ id i h. absurd (none_found i h);
}

upsert_issuer-IsIndexed_example : IsIndexed (upsert_issuer empty first).1
upsert_issuer-IsIndexed_example = upsert_issuer-IsIndexed empty first empty-IsIndexed

lookup_issuer-upsert_issuer_example :
    ((upsert_issuer one_issuer second).0 ≡ returned second)
      × (lookup_issuer (upsert_issuer one_issuer second).1 toyota_edinet ≡ returned (some second))
    ⊎ ((i : Identifier) × (owner : String) × (upsert_issuer one_issuer second
          ≡ (identifier_conflict i owner "I2", one_issuer)))
lookup_issuer-upsert_issuer_example =
    lookup_issuer-upsert_issuer one_issuer second toyota_edinet (unfold has_key same_key in refl)

found_first : get "I1" (upsert_issuer (upsert_issuer empty first).1 second).1.issuers ≡ some first
unfolding upsert_issuer conflict_in forget assign find store discard get put same_key has_key
found_first = refl

found_second : get "I2" (upsert_issuer (upsert_issuer empty first).1 second).1.issuers ≡ some second
unfolding upsert_issuer conflict_in forget assign find store discard get put same_key has_key
found_second = refl

merge_issuers-IsIndexed_example :
    let s = (upsert_issuer (upsert_issuer empty first).1 second).1 in
    ((merge_issuers s "I1" "I2").0 ≡ returned (merged_record first second))
    × IsIndexed (merge_issuers s "I1" "I2").1
merge_issuers-IsIndexed_example =
    merge_issuers-IsIndexed (upsert_issuer (upsert_issuer empty first).1 second).1 "I1" "I2" first
      second
      (upsert_issuer-IsIndexed (upsert_issuer empty first).1 second
        (upsert_issuer-IsIndexed empty first empty-IsIndexed))
      found_first found_second refl
