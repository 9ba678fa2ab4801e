-- ===== src/Entities/Store/Index.antt =====
-- The index of in_memory.py: which issuer an identifier is assigned to.
use caqrs.Prelude.{
  true, false, not, ◌&&◌, String, List, [], ◌∷◌, none, some, str_eq, str_eq_iff, str_eq_refl, ◌≡◌,
  ◌≢◌, refl, sym, ap, subst, ◌⊎◌, ◌∙◌, arith, if◌then◌else◌, Bool-cases, Option-cases, inl, inr,
}
use caqrs.Prelude.Dict.{get, put, get-put}
use caqrs.Prelude.Assoc.{find, store, discard, find-store, find-discard}
use caqrs.Entities.Types.{Identifier, same_key, same_key_iff, Issuer}
use caqrs.Entities.Store.{
  InMemoryEntityStore, Keyed, returned, identifier_conflict, conflict_in, has_key, forget, assign,
  is_owner, previous_identifiers, upsert_issuer, lookup_issuer,
}

find-assign :
    (id : String) (is : List Identifier) (keyed : Keyed) (k : Identifier)
    → find same_key k (assign id is keyed)
      ≡ (if has_key k is then some id else find same_key k keyed)
unfolding assign has_key
find-assign id [] keyed k = refl
find-assign id (i ∷ is) keyed k = ground (
  arith,
  find-assign id is (store same_key i id keyed) k,
  find-store same_key same_key_iff i k id keyed,
)

find-forget :
    (id : String) (new previous : List Identifier) (keyed : Keyed) (k : Identifier)
    → find same_key k (forget id new previous keyed) ≡ (
        if has_key k previous && (not (has_key k new) && is_owner id (find same_key k keyed))
        then none
        else find same_key k keyed)
unfolding forget has_key
find-forget id new [] keyed k = refl
find-forget id new (i ∷ previous) keyed k = ground (
  arith,
  find-forget id new previous keyed k,
  find-forget id new previous (discard same_key i keyed) k,
  find-discard same_key same_key_iff i k keyed,
  same_key_iff i k,
)

conflict_in-none :
    (id : String) (is : List Identifier) (keyed : Keyed) (k : Identifier) (owner : String)
    → conflict_in keyed id is ≡ none
    → has_key k is ≡ true
    → find same_key k keyed ≡ some owner
    → owner ≡ id
unfolding conflict_in has_key
conflict_in-none id [] keyed k owner clear has h = cc
conflict_in-none id (i ∷ is) keyed k owner clear has h =
    ground (arith, same_key_iff i k, str_eq_iff owner id, conflict_in-none id is keyed k owner)

module _ {ℓ} {A : Type ℓ} where
  -- The index and the records agree: an identifier is assigned to an issuer exactly if that issuer is
  -- stored and has it, and a record is stored under its id.
  pub record IsIndexed (s : InMemoryEntityStore A) : Type 0 where
    pub owned :
        (k : Identifier) (id : String)
        → find same_key k s.identifiers ≡ some id
        → (issuer : Issuer) × (get id s.issuers ≡ some issuer)
          × (has_key k issuer.identifiers ≡ true)
    pub assigned :
        (k : Identifier) (id : String) (issuer : Issuer)
        → get id s.issuers ≡ some issuer
        → has_key k issuer.identifiers ≡ true
        → find same_key k s.identifiers ≡ some id
    pub named : (id : String) (issuer : Issuer) → get id s.issuers ≡ some issuer → issuer.id ≡ id

  -- The store after an upsert without a conflict.
  abbrev pub upserted : InMemoryEntityStore A → Issuer → InMemoryEntityStore A
  upserted s issuer = record s {
    issuers = put issuer.id issuer s.issuers;
    identifiers = assign issuer.id issuer.identifiers (
        forget issuer.id issuer.identifiers (previous_identifiers (get issuer.id s.issuers))
          s.identifiers);
  }

  pub upserted-find :
      (s : InMemoryEntityStore A) (issuer : Issuer) (k : Identifier)
      → find same_key k (upserted s issuer).identifiers ≡ (
          if has_key k issuer.identifiers
          then some issuer.id
          else if has_key k (previous_identifiers (get issuer.id s.issuers))
              && (not (has_key k issuer.identifiers)
                  && is_owner issuer.id (find same_key k s.identifiers))
          then none
          else find same_key k s.identifiers)
  upserted-find s issuer k =
      find-assign issuer.id issuer.identifiers
        (forget issuer.id issuer.identifiers (previous_identifiers (get issuer.id s.issuers))
          s.identifiers)
        k
      ∙ ap (λ x. if has_key k issuer.identifiers then some issuer.id else x)
          (find-forget issuer.id issuer.identifiers (previous_identifiers (get issuer.id s.issuers))
            s.identifiers k)

  -- A key that the issuer had and has no more is gone.
  forgotten :
      (s : InMemoryEntityStore A) (issuer previous : Issuer) (k : Identifier) {id : String}
      → has_key k issuer.identifiers ≡ false
      → str_eq issuer.id id ≡ true
      → find same_key k s.identifiers ≡ some id
      → get issuer.id s.issuers ≡ some previous
      → has_key k previous.identifiers ≡ true
      → find same_key k (upserted s issuer).identifiers ≢ some id
  forgotten s issuer previous k {id = id} old mine before there has h = ground (
    arith,
    upserted-find s issuer k,
    str_eq_iff issuer.id id,
    str_eq_iff id issuer.id,
    ap (λ o. has_key k (previous_identifiers o)) there,
    ap (is_owner issuer.id) before,
  )

  upserted-owned :
      (s : InMemoryEntityStore A) (issuer : Issuer)
      → IsIndexed s
      → (k : Identifier) (id : String) → find same_key k (upserted s issuer).identifiers ≡ some id
      → (found : Issuer) × (get id (put issuer.id issuer s.issuers) ≡ some found)
        × (has_key k found.identifiers ≡ true)
  upserted-owned s issuer indexed k id h = elim (Bool-cases (has_key k issuer.identifiers)) [
    | inl new ↦
        let same : issuer.id ≡ id = ground (arith, upserted-find s issuer k, new, h) in
        (
          issuer,
          ground (arith, get-put issuer.id id issuer s.issuers, str_eq_iff issuer.id id, same),
          new,
        )
    | inr old ↦
        let before : find same_key k s.identifiers ≡ some id =
          ground (arith, upserted-find s issuer k, old, h) in
        let (found, there, has) = indexed.owned k id before in
        elim (Bool-cases (str_eq issuer.id id)) [
          | inl mine ↦
              let there' : get issuer.id s.issuers ≡ some found =
                ap (λ i. get i s.issuers) ((str_eq_iff issuer.id id).0 mine) ∙ there in
              absurd (forgotten s issuer found k old mine before there' has h)
          | inr other ↦ (found, get-put issuer.id id issuer s.issuers ∙ rw other there, has)
        ]
  ]

  upserted-assigned :
      (s : InMemoryEntityStore A) (issuer : Issuer)
      → IsIndexed s
      → conflict_in s.identifiers issuer.id issuer.identifiers ≡ none
      → (k : Identifier) (id : String) (found : Issuer)
      → get id (put issuer.id issuer s.issuers) ≡ some found
      → has_key k found.identifiers ≡ true
      → find same_key k (upserted s issuer).identifiers ≡ some id
  upserted-assigned s issuer indexed clear k id found there has =
      elim (Bool-cases (str_eq issuer.id id)) [
        | inl mine ↦
            let same : found ≡ issuer =
              ground (arith, get-put issuer.id id issuer s.issuers, mine, there) in
            let new : has_key k issuer.identifiers ≡ true =
              ap (λ (i : Issuer). has_key k i.identifiers) (sym same) ∙ has in
            ground (arith, upserted-find s issuer k, new, str_eq_iff issuer.id id, mine)
        | inr other ↦
            let there' : get id s.issuers ≡ some found =
              ground (arith, get-put issuer.id id issuer s.issuers, other, there) in
            let before = indexed.assigned k id found there' has in
            elim (Bool-cases (has_key k issuer.identifiers)) [
              | inl new ↦
                  let same =
                    conflict_in-none issuer.id issuer.identifiers s.identifiers k id clear new
                      before in
                  absurd (ground (arith, str_eq_iff issuer.id id, same, other))
              | inr old ↦ ground (
                arith,
                upserted-find s issuer k,
                old,
                before,
                ap (is_owner issuer.id) before,
                str_eq_iff issuer.id id,
                str_eq_iff id issuer.id,
                other,
              )
            ]
      ]

  pub upsert_clear :
      (s : InMemoryEntityStore A) (issuer : Issuer)
      → conflict_in s.identifiers issuer.id issuer.identifiers ≡ none
      → upsert_issuer s issuer ≡ (returned issuer, upserted s issuer)
  unfolding upsert_issuer
  upsert_clear s issuer clear = rw (upsert_issuer, clear) refl

  upsert_conflict :
      (s : InMemoryEntityStore A) (issuer : Issuer) {i : Identifier} {owner : String}
      → conflict_in s.identifiers issuer.id issuer.identifiers ≡ some (i, owner)
      → upsert_issuer s issuer ≡ (identifier_conflict i owner issuer.id, s)
  unfolding upsert_issuer
  upsert_conflict s issuer conflict = rw (upsert_issuer, conflict) refl

  upserted-named :
      (s : InMemoryEntityStore A) (issuer : Issuer)
      → IsIndexed s
      → (id : String) (found : Issuer) → get id (put issuer.id issuer s.issuers) ≡ some found
      → found.id ≡ id
  upserted-named s issuer indexed id found there = elim (Bool-cases (str_eq issuer.id id)) [
    | inl mine ↦
        let same : issuer ≡ found =
          ground (arith, get-put issuer.id id issuer s.issuers, mine, there) in
        ap (λ (i : Issuer). i.id) (sym same) ∙ (str_eq_iff issuer.id id).0 mine
    | inr other ↦
        indexed.named id found (ground (arith, get-put issuer.id id issuer s.issuers, other, there))
  ]

  -- An upsert, whether it raises or not, keeps the index in agreement with the records: an identifier is
  -- assigned to an issuer exactly if that issuer is stored and has it, and a record is stored under its
  -- id.
  pub upsert_issuer-IsIndexed :
      (s : InMemoryEntityStore A) (issuer : Issuer)
      → IsIndexed s
      → IsIndexed (upsert_issuer s issuer).1
  upsert_issuer-IsIndexed s issuer indexed =
      elim (Option-cases (conflict_in s.identifiers issuer.id issuer.identifiers)) [
        | inl clear ↦
            subst (λ x. IsIndexed x.1) (sym (upsert_clear s issuer clear))
              (record {
                owned = upserted-owned s issuer indexed;
                assigned = upserted-assigned s issuer indexed clear;
                named = upserted-named s issuer indexed;
              })
        | inr ((i, owner), conflict) ↦
            subst (λ x. IsIndexed x.1) (sym (upsert_conflict s issuer conflict)) indexed
      ]

  -- After an upsert that returns, each identifier of the record looks up that record; one that raises
  -- leaves the store as it was.
  pub lookup_issuer-upsert_issuer :
      (s : InMemoryEntityStore A) (issuer : Issuer) (k : Identifier)
      → has_key k issuer.identifiers ≡ true
      → ((upsert_issuer s issuer).0 ≡ returned issuer)
          × (lookup_issuer (upsert_issuer s issuer).1 k ≡ returned (some issuer))
        ⊎ ((i : Identifier) × (owner : String) × (upsert_issuer s issuer
              ≡ (identifier_conflict i owner issuer.id, s)))
  unfolding lookup_issuer
  lookup_issuer-upsert_issuer s issuer k new =
      elim (Option-cases (conflict_in s.identifiers issuer.id issuer.identifiers)) [
        | inl clear ↦
            let there : get issuer.id (put issuer.id issuer s.issuers) ≡ some issuer =
              ground (arith, get-put issuer.id issuer.id issuer s.issuers, str_eq_refl issuer.id) in
            let found : find same_key k (upserted s issuer).identifiers ≡ some issuer.id =
              ground (arith, upserted-find s issuer k, new) in
            inl (
              ap (λ x. x.0) (upsert_clear s issuer clear),
              ap (λ x. lookup_issuer x.1 k) (upsert_clear s issuer clear)
                  ∙ rw (lookup_issuer, found, there) refl,
            )
        | inr ((i, owner), conflict) ↦ inr (i, owner, upsert_conflict s issuer conflict)
      ]
