-- ===== src/Lte/Mme/Store.antt =====
-- ue_context_store.h: the contexts in 64 shards by their identifier. A context is changed through
-- the pointer that `find` returns, which is `modify` here.
pub mod Map
use g_5g_ims_simulators.Prelude.{
  ℕ, ◌+◌, ◌%◌, ◌^◌, Option, none, some, List, [], ◌∷◌, ◌==◌, if◌then◌else◌, length, get_or, set,
  replicate,
}
use g_5g_ims_simulators.Prelude.Tables
use g_5g_ims_simulators.Lte.Mme.Context.{UeContext}

abbrev pub num_shards : ℕ
num_shards = 64

abbrev pub Shard : Type 0
Shard = List (ℕ × UeContext)

pub record UeContextStore : Type 0 where
  pub shards : List Shard
  pub next_id : ℕ  -- atomic uint32

abbrev pub no_contexts : UeContextStore
no_contexts = record { shards = replicate num_shards []; next_id = 1 }

unfoldable pub shard : UeContextStore → ℕ → Shard
shard s id = get_or s.shards (id % num_shards) []

put_shard : UeContextStore → ℕ → Shard → UeContextStore
put_shard s id sh = record s { shards = set s.shards (id % num_shards) sh }

pub insert : UeContextStore → UeContext → ℕ × UeContextStore
unfolding put_shard
insert s ctx =
    let id = s.next_id in
    let s1 = record s { next_id = (id + 1) % 2 ^ 32 } in
    (id, put_shard s1 id (Tables.insert id (record ctx { mme_ue_s1ap_id = id }) (shard s id)))

pub find : UeContextStore → ℕ → Option UeContext
find s id = Tables.find id (shard s id)

pub remove : UeContextStore → ℕ → UeContextStore
unfolding put_shard
remove s id = put_shard s id (Tables.erase id (shard s id))

sizes : List Shard → ℕ
sizes [] = 0
sizes (sh ∷ shs) = length sh + sizes shs

pub size : UeContextStore → ℕ
unfolding sizes
size s = sizes s.shards

-- `if (auto ctx = find(id)) …` with an assignment through the pointer.
pub modify : UeContextStore → ℕ → (UeContext → UeContext) → UeContextStore
unfolding put_shard
modify s id f = elim (find s id) [
  | none ↦ s
  | some ctx ↦ put_shard s id (Tables.insert id (f ctx) (shard s id))
]
