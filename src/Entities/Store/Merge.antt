-- ===== src/Entities/Store/Merge.antt =====
-- The index of in_memory.py through a merge of two issuers.
mod Relink
use caqrs.Prelude.{
  Bool, true, false, not, ◌&&◌, ◌||◌, String, List, [], ◌∷◌, ◌++◌, Option, none, some, str_eq,
  str_eq_iff, str_eq_refl, ◌⊎◌, ◌≡◌, ◌≢◌, refl, sym, ap, subst, ◌∙◌, arith, if◌then◌else◌,
  Bool-cases, Option-cases, inl, inr,
}
use caqrs.Prelude.Dict.{Dict, get, put, remove, get-put, get-remove}
use caqrs.Prelude.Assoc.{find, store, find-store}
use caqrs.Entities.Types.{Identifier, same_key, same_key_iff, Issuer}
use caqrs.Entities.Store.{
  InMemoryEntityStore, Keyed, StoreReply, returned, identifier_conflict, unknown_issuer, key_error,
  conflict_in, has_key, is_owner, identifier_union, relink, transfer, previous_identifiers,
  upsert_issuer, merge_issuers,
}
use caqrs.Entities.Store.Index.{IsIndexed, upserted, upserted-find, upsert_clear}
use caqrs.Entities.Store.Merge.Relink.{
  has_key-identifier_union, relink_clear, conflict_in-clear, some_injective, differs,
}

-- The record of the kept issuer with the identifiers of both.
abbrev pub merged_record : Issuer → Issuer → Issuer
merged_record kept dropped = record kept {
  identifiers = identifier_union (identifier_union [] kept.identifiers) dropped.identifiers;
}

module _ {ℓ} {A : Type ℓ} (s : InMemoryEntityStore A) (keep drop : String) (kept dropped : Issuer)
    (indexed : IsIndexed s) (has_kept : get keep s.issuers ≡ some kept)
    (has_dropped : get drop s.issuers ≡ some dropped) (apart : str_eq keep drop ≡ false) where
  abbrev merged : Issuer
  merged = merged_record kept dropped

  abbrev linked : InMemoryEntityStore A
  linked = record s { identifiers = (relink keep drop dropped.identifiers s.identifiers).1 }

  abbrev result : InMemoryEntityStore A
  result = transfer keep drop (upserted linked merged)

  has_key-merged :
      (k : Identifier)
      → has_key k merged.identifiers ≡ (has_key k kept.identifiers || has_key k dropped.identifiers)
  has_key-merged k =
      has_key-identifier_union k (identifier_union [] kept.identifiers) dropped.identifiers
      ∙ ap (λ b. b || has_key k dropped.identifiers)
          (has_key-identifier_union k [] kept.identifiers ∙ (unfold has_key in refl))

  relinked :
      ((relink keep drop dropped.identifiers s.identifiers).0 ≡ none)
      × ((k : Identifier)
          → find same_key k linked.identifiers
            ≡ (if has_key k dropped.identifiers then some keep else find same_key k s.identifiers))
  relinked =
      relink_clear keep drop dropped.identifiers s.identifiers
        (λ k h. inr (indexed.assigned k drop dropped has_dropped h))

  linked-find :
      (k : Identifier)
      → has_key k merged.identifiers ≡ true
      → find same_key k linked.identifiers ≡ some keep
  linked-find k h = elim (Bool-cases (has_key k dropped.identifiers)) [
    | inl theirs ↦ relinked.1 k ∙ rw theirs refl
    | inr not_theirs ↦
        let mine : has_key k kept.identifiers ≡ true =
          ground (arith, has_key-merged k, h, not_theirs) in
        relinked.1 k ∙ rw not_theirs (indexed.assigned k keep kept has_kept mine)
  ]

  -- The identifiers after the merge: the kept issuer's and the dropped issuer's are the kept issuer's.
  result-find :
      (k : Identifier)
      → find same_key k (upserted linked merged).identifiers
        ≡ (if has_key k merged.identifiers then some keep else find same_key k s.identifiers)
  result-find k =
      let same = indexed.named keep kept has_kept in
      elim (Bool-cases (has_key k merged.identifiers)) [
        | inl has ↦ upserted-find linked merged k ∙ rw has (ap some same)
        | inr lacks ↦
            let parts : (has_key k kept.identifiers ≡ false)
                × (has_key k dropped.identifiers ≡ false) =
              ground (arith, has_key-merged k, lacks) in
            let before : has_key k (previous_identifiers (get merged.id s.issuers)) ≡ false =
              ap (λ id. has_key k (previous_identifiers (get id s.issuers))) same
              ∙ (ap (λ o. has_key k (previous_identifiers o)) has_kept ∙ parts.0) in
            upserted-find linked merged k ∙ rw (lacks, before) (relinked.1 k ∙ rw parts.1 refl)
      ]

  result-get :
      (id : String)
      → get id (remove drop (put merged.id merged s.issuers)) ≡ (
          if str_eq drop id then none else if str_eq keep id then some merged else get id s.issuers)
  result-get id =
      get-remove drop id (put merged.id merged s.issuers)
      ∙ ap (λ o. if str_eq drop id then none else o)
          (get-put merged.id id merged s.issuers
            ∙ ap (λ j. if str_eq j id then some merged else get id s.issuers)
                (indexed.named keep kept has_kept))

  -- What each issuer but the two had is as it was.
  held_by :
      (k : Identifier) (id : String)
      → has_key k merged.identifiers ≡ true
      → find same_key k s.identifiers ≡ some id
      → (keep ≡ id) ⊎ (drop ≡ id)
  held_by k id has h = elim (Bool-cases (has_key k kept.identifiers)) [
    | inl mine ↦ inl (some_injective (sym (indexed.assigned k keep kept has_kept mine) ∙ h))
    | inr not_mine ↦
        let theirs : has_key k dropped.identifiers ≡ true =
          ground (arith, has_key-merged k, has, not_mine) in
        inr (some_injective (sym (indexed.assigned k drop dropped has_dropped theirs) ∙ h))
  ]

  others_keep :
      (k : Identifier) (id : String) (found : Issuer)
      → has_key k merged.identifiers ≡ false
      → get id s.issuers ≡ some found
      → has_key k found.identifiers ≡ true
      → (str_eq drop id ≡ false) × (str_eq keep id ≡ false)
  others_keep k id found lacks there has =
      let parts : (has_key k kept.identifiers ≡ false) × (has_key k dropped.identifiers ≡ false) =
        ground (arith, has_key-merged k, lacks) in
      (
        differs s.issuers drop id dropped found k has_dropped there has parts.1,
        differs s.issuers keep id kept found k has_kept there has parts.0,
      )

  result-owned :
      (k : Identifier) (id : String)
      → find same_key k (upserted linked merged).identifiers ≡ some id
      → (found : Issuer) × (get id (remove drop (put merged.id merged s.issuers)) ≡ some found)
        × (has_key k found.identifiers ≡ true)
  result-owned k id h = elim (Bool-cases (has_key k merged.identifiers)) [
    | inl has ↦
        let same : keep ≡ id = some_injective (sym (result-find k ∙ rw has refl) ∙ h) in
        let is_keep : str_eq keep id ≡ true = (str_eq_iff keep id).1 same in
        let not_drop : str_eq drop id ≡ false =
          ground (arith, str_eq_iff drop id, str_eq_iff keep drop, same, apart) in
        (merged, result-get id ∙ rw (not_drop, is_keep) refl, has)
    | inr lacks ↦
        let before = sym (result-find k ∙ rw lacks refl) ∙ h in
        let (found, there, has) = indexed.owned k id before in
        let (not_drop, not_keep) = others_keep k id found lacks there has in
        (found, result-get id ∙ rw (not_drop, not_keep) there, has)
  ]

  result-assigned :
      (k : Identifier) (id : String) (found : Issuer)
      → get id (remove drop (put merged.id merged s.issuers)) ≡ some found
      → has_key k found.identifiers ≡ true
      → find same_key k (upserted linked merged).identifiers ≡ some id
  result-assigned k id found there has = elim (Bool-cases (str_eq drop id)) [
    | inl is_drop ↦ absurd (ground (arith, result-get id, is_drop, there))
    | inr not_drop ↦ elim (Bool-cases (str_eq keep id)) [
      | inl is_keep ↦
          let same : merged ≡ found =
            some_injective (sym (result-get id ∙ rw (not_drop, is_keep) refl) ∙ there) in
          let mine : has_key k merged.identifiers ≡ true =
            ap (λ (i : Issuer). has_key k i.identifiers) same ∙ has in
          result-find k ∙ rw mine (ap some ((str_eq_iff keep id).0 is_keep))
      | inr not_keep ↦
          let there' : get id s.issuers ≡ some found =
            sym (result-get id ∙ rw (not_drop, not_keep) refl) ∙ there in
          let before = indexed.assigned k id found there' has in
          elim (Bool-cases (has_key k merged.identifiers)) [
            | inr lacks ↦ result-find k ∙ rw lacks before
            | inl both ↦ elim (held_by k id both before) [
              | inl e ↦ absurd (ground (arith, (str_eq_iff keep id).1 e, not_keep))
              | inr e ↦ absurd (ground (arith, (str_eq_iff drop id).1 e, not_drop))
            ]
          ]
    ]
  ]

  result-named :
      (id : String) (found : Issuer)
      → get id (remove drop (put merged.id merged s.issuers)) ≡ some found
      → found.id ≡ id
  result-named id found there = elim (Bool-cases (str_eq drop id)) [
    | inl is_drop ↦ absurd (ground (arith, result-get id, is_drop, there))
    | inr not_drop ↦ elim (Bool-cases (str_eq keep id)) [
      | inl is_keep ↦
          let same : merged ≡ found =
            some_injective (sym (result-get id ∙ rw (not_drop, is_keep) refl) ∙ there) in
          ap (λ (i : Issuer). i.id) (sym same)
          ∙ (indexed.named keep kept has_kept ∙ (str_eq_iff keep id).0 is_keep)
      | inr not_keep ↦
          indexed.named id found (sym (result-get id ∙ rw (not_drop, not_keep) refl) ∙ there)
    ]
  ]

  abbrev settled :
      StoreReply Issuer × InMemoryEntityStore A → StoreReply Issuer × InMemoryEntityStore A
  settled (answer, after) = elim answer [
    | returned _ ↦ (returned merged, transfer keep drop after)
    | identifier_conflict i e p ↦ (identifier_conflict i e p, after)
    | unknown_issuer id ↦ (unknown_issuer id, after)
    | key_error ↦ (key_error, after)
  ]

  merge_clear : merge_issuers s keep drop ≡ (returned merged, result)
  unfolding merge_issuers
  merge_clear =
      let clear =
        conflict_in-clear merged.id merged.identifiers linked.identifiers
          (λ k h. linked-find k h ∙ ap some (sym (indexed.named keep kept has_kept))) in
      rw (merge_issuers, has_kept, apart, has_dropped, relinked.0)
        (ap settled (upsert_clear linked merged clear))

  -- Two issuers of a store whose index agrees with its records always merge: the call returns the kept
  -- record with the identifiers of both, and the index agrees with the records afterwards.
  pub merge_issuers-IsIndexed :
      ((merge_issuers s keep drop).0 ≡ returned (merged_record kept dropped))
      × IsIndexed (merge_issuers s keep drop).1
  unfolding transfer
  merge_issuers-IsIndexed = (
    ap (λ x. x.0) merge_clear,
    subst (λ x. IsIndexed x.1) (sym merge_clear)
        (record { owned = result-owned; assigned = result-assigned; named = result-named }),
  )
