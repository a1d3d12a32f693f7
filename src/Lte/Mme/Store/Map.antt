-- ===== src/Lte/Mme/Store/Map.antt =====
-- The sharded store is one map from identifiers to contexts.
use g_5g_ims_simulators.Prelude.{
  ℕ, ◌+◌, ◌%◌, ◌^◌, ◌≡◌, refl, ap, ◌∙◌, inl, inr, ◌⊎◌, ◌≢◌, Bool, true, false, none, some, [],
  arith, ◌==◌, ==_iff, ==_false, Bool-cases, Option-cases, if◌then◌else◌, length, get_or,
  length-set, length-replicate, get_or-set_self, get_or-set_ne,
}
use g_5g_ims_simulators.Prelude.Tables
use g_5g_ims_simulators.Lte.Mme.Context.{UeContext}
use g_5g_ims_simulators.Lte.Mme.Store.{
  UeContextStore, Shard, num_shards, no_contexts, shard, put_shard, insert, find, remove, modify,
}

-- All 64 shards are there.
pub IsValid : UeContextStore → Type 0
IsValid s = length s.shards ≡ num_shards

pub no_contexts-IsValid : IsValid no_contexts
unfolding IsValid
no_contexts-IsValid = length-replicate {A = Shard} num_shards []

module _ (s : UeContextStore) (v : IsValid s) where
  find-put_shard :
      (id j : ℕ) (sh : Shard)
      → Tables.find j (shard (put_shard s id sh) j)
        ≡ (if id % num_shards == j % num_shards then Tables.find j sh else find s j)
  unfolding shard put_shard find IsValid
  find-put_shard id j sh = elim (Bool-cases (id % num_shards == j % num_shards)) [
    | inl e ↦
        rw (e, (==_iff (id % num_shards) (j % num_shards)).0 e)
          (ap (Tables.find j) (get_or-set_self s.shards (j % num_shards) sh [] (omega (arith, v))))
    | inr e ↦ rw e (
        ap (Tables.find j) (
          get_or-set_ne s.shards (id % num_shards) (j % num_shards) sh []
            (λ z. absurd (clash e ((==_iff _ _).1 z)))))
  ]
    where
      clash : {b : Bool} → b ≡ false → b ≡ true → ⊥
      clash p q = cc

  same_shard : (id j : ℕ) → id % num_shards ≡ j % num_shards → shard s id ≡ shard s j
  unfolding shard
  same_shard id j e = ap (λ (i : ℕ). get_or s.shards i []) e

  find-put_insert :
      (id j : ℕ) (ctx : UeContext)
      → find (put_shard s id (Tables.insert id ctx (shard s id))) j
        ≡ (if id == j then some ctx else find s j)
  unfolding find
  find-put_insert id j ctx =
      find-put_shard id j (Tables.insert id ctx (shard s id))
      ∙ elim (Bool-cases (id % num_shards == j % num_shards)) [
        | inl e ↦ rw e (
            Tables.find-insert id j ctx (shard s id)
            ∙ ap (λ sh. if id == j then some ctx else Tables.find j sh)
                (same_shard id j ((==_iff (id % num_shards) (j % num_shards)).0 e)))
        | inr e ↦
            rw (e, ==_false id j (λ z. clash e ((==_iff _ _).1 (ap (λ (i : ℕ). i % num_shards) z))))
      ]
    where
      clash : {b : Bool} → b ≡ false → b ≡ true → ⊥
      clash p q = cc

module _ (s : UeContextStore) (v : IsValid s) where
  -- An insertion adds one context under the next identifier, written into it, and leaves all
  -- other identifiers as they were.
  pub find-insert :
      (ctx : UeContext) (j : ℕ)
      → find (insert s ctx).1 j
        ≡ (if s.next_id == j then some (record ctx { mme_ue_s1ap_id = s.next_id }) else find s j)
  unfolding insert find IsValid shard
  find-insert ctx j =
      find-put_insert (record s { next_id = (s.next_id + 1) % 2 ^ 32 }) v s.next_id j
        (record ctx { mme_ue_s1ap_id = s.next_id })

  -- Removal takes away the context of that identifier and no other.
  pub find-remove : (id j : ℕ) → find (remove s id) j ≡ (if id == j then none else find s j)
  unfolding remove find
  find-remove id j =
      find-put_shard s v id j (Tables.erase id (shard s id))
      ∙ elim (Bool-cases (id % num_shards == j % num_shards)) [
        | inl e ↦ rw e (
            Tables.find-erase id j (shard s id)
            ∙ ap (λ sh. if id == j then none else Tables.find j sh)
                (same_shard s v id j ((==_iff (id % num_shards) (j % num_shards)).0 e)))
        | inr e ↦
            rw (e, ==_false id j (λ z. clash e ((==_iff _ _).1 (ap (λ (i : ℕ). i % num_shards) z))))
      ]
    where
      clash : {b : Bool} → b ≡ false → b ≡ true → ⊥
      clash p q = cc

  -- A change through the pointer to a context that is there.
  pub find-modify :
      (id j : ℕ) (f : UeContext → UeContext) (ctx : UeContext)
      → find s id ≡ some ctx
      → find (modify s id f) j ≡ (if id == j then some (f ctx) else find s j)
  unfolding modify
  find-modify id j f ctx e = rw (e, modify) (find-put_insert s v id j (f ctx))

  pub modify-none : (id : ℕ) (f : UeContext → UeContext) → find s id ≡ none → modify s id f ≡ s
  unfolding modify
  modify-none id f e = rw (e, modify)

  pub insert-IsValid : (ctx : UeContext) → IsValid (insert s ctx).1
  unfolding insert put_shard IsValid
  insert-IsValid ctx = length-set s.shards _ _ ∙ v

  pub remove-IsValid : (id : ℕ) → IsValid (remove s id)
  unfolding remove put_shard IsValid
  remove-IsValid id = length-set s.shards _ _ ∙ v

  pub modify-IsValid : (id : ℕ) (f : UeContext → UeContext) → IsValid (modify s id f)
  unfolding modify put_shard IsValid
  modify-IsValid id f = elim (Option-cases (find s id)) [
    | inl e ↦ rw (e, modify) v
    | inr (ctx, e) ↦ rw (e, modify) (length-set s.shards _ _ ∙ v)
  ]

pub insert-id : (s : UeContextStore) (ctx : UeContext) → (insert s ctx).0 ≡ s.next_id
unfolding insert
insert-id s ctx = refl

-- What a change through a pointer makes of any context that is there.
pub modify-cases :
    (s : UeContextStore)
    → IsValid s
    → (id j : ℕ) (f : UeContext → UeContext) (c : UeContext) → find s j ≡ some c
    → ((id ≡ j) × (find (modify s id f) j ≡ some (f c)))
      ⊎ ((id ≢ j) × (find (modify s id f) j ≡ some c))
modify-cases s v id j f c here = elim (Bool-cases (id == j)) [
  | inl e ↦
      let same = (==_iff id j).0 e in
      inl (same, find-modify s v id j f c (ap (find s) same ∙ here) ∙ rw e)
  | inr e ↦ inr (differs e, other e)
]
  where
    differs : (id == j) ≡ false → id ≢ j
    differs e z = clash e ((==_iff id j).1 z)
      where
        clash : {b : Bool} → b ≡ false → b ≡ true → ⊥
        clash p q = cc

    other : (id == j) ≡ false → find (modify s id f) j ≡ some c
    other e = elim (Option-cases (find s id)) [
      | inl none_there ↦ ap (λ t. find t j) (modify-none s v id f none_there) ∙ here
      | inr (d, there) ↦ find-modify s v id j f d there ∙ rw e here
    ]
