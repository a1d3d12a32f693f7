-- ===== src/FastPath/Rules.antt =====
-- pfcp_rules.h: the PDR, FAR and QER tables, and the demo rules.
pub mod Lookup
pub mod Demo
use g_5g_ims_simulators.Prelude.{
  ℕ, zero, suc, ◌+◌, ◌*◌, ◌%◌, ◌^◌, Bool, true, false, Option, none, some, List, [], ◌∷◌, get_or,
  ◌>>=◌,
}
use g_5g_ims_simulators.Prelude.Tables.{find, insert}
use g_5g_ims_simulators.FastPath.Packet.{Direction, ul, dl, Packet}

abbrev pub u32 : ℕ → ℕ
u32 x = x % 2 ^ 32

pub record Pdr : Type 0 where
  pub pdr_id : ℕ
  pub teid : ℕ
  pub ue_ip : ℕ
  pub dir : Direction
  pub far_id : ℕ
  pub qer_id : ℕ
  pub precedence : ℕ

pub data FarAction : Type 0 where
  forward drop buffer : FarAction

pub record Far : Type 0 where
  pub far_id : ℕ
  pub action : FarAction
  pub dst_ip : ℕ
  pub dst_port : ℕ
  pub encap_gtpu : Bool

pub record Qer : Type 0 where
  pub qer_id : ℕ
  pub qfi : ℕ
  pub ul_mbr_kbps : ℕ
  pub dl_mbr_kbps : ℕ
  pub ul_gbr_kbps : ℕ
  pub dl_gbr_kbps : ℕ

pub record RuleTable : Type 0 where
  pub pdrs : List (ℕ × Pdr)
  pub fars : List (ℕ × Far)
  pub qers : List (ℕ × Qer)
  pub teid_to_pdr : List (ℕ × ℕ)
  pub ueip_to_pdr : List (ℕ × ℕ)

abbrev pub no_rules : RuleTable
no_rules = record { pdrs = []; fars = []; qers = []; teid_to_pdr = []; ueip_to_pdr = [] }

-- The index that `add_pdr` writes is chosen by the direction.
index_pdr : Direction → RuleTable → Pdr → RuleTable
index_pdr ul rt pdr = record rt { teid_to_pdr = insert pdr.teid pdr.pdr_id rt.teid_to_pdr }
index_pdr dl rt pdr = record rt { ueip_to_pdr = insert pdr.ue_ip pdr.pdr_id rt.ueip_to_pdr }

pub add_pdr : RuleTable → Pdr → RuleTable
unfolding index_pdr
add_pdr rt pdr = index_pdr pdr.dir (record rt { pdrs = insert pdr.pdr_id pdr rt.pdrs }) pdr

pub add_far : RuleTable → Far → RuleTable
add_far rt far = record rt { fars = insert far.far_id far rt.fars }

pub add_qer : RuleTable → Qer → RuleTable
add_qer rt qer = record rt { qers = insert qer.qer_id qer rt.qers }

pub pdr_key : Direction → RuleTable → Packet → Option ℕ
pdr_key ul rt pkt = find pkt.teid rt.teid_to_pdr
pdr_key dl rt pkt = find pkt.ue_ip rt.ueip_to_pdr

-- `nullptr` is `none`.
pub match_pdr : RuleTable → Packet → Option Pdr
unfolding pdr_key
match_pdr rt pkt = do pdr_id ← pdr_key pkt.dir rt pkt; find pdr_id rt.pdrs

pub get_far : RuleTable → ℕ → Option Far
get_far rt far_id = find far_id rt.fars

pub get_qer : RuleTable → ℕ → Option Qer
get_qer rt qer_id = find qer_id rt.qers

-- The constants of `build_demo_rules`.
abbrev pub base_ue_ip : ℕ
base_ue_ip = 10 * 2 ^ 24 + 45 * 2 ^ 16 + 1

abbrev pub base_teid : ℕ
base_teid = 1000

abbrev pub n6_gw_ip : ℕ
n6_gw_ip = 8 * 2 ^ 24 + 8 * 2 ^ 16 + 8 * 2 ^ 8 + 8

abbrev pub gnb_n3_ip : ℕ
gnb_n3_ip = 10 * 2 ^ 24 + 10 * 2 ^ 16 + 1

-- The tables are read at `i % 3`, inside their three cells.
abbrev pub cycle : List ℕ → ℕ → ℕ
cycle xs i = get_or xs (i % 3) 0

pub demo_ul_pdr : ℕ → Pdr
demo_ul_pdr i = record {
  pdr_id = u32 (2 * i + 1);
  teid = u32 (base_teid + i);
  ue_ip = u32 (base_ue_ip + i);
  dir = ul;
  far_id = u32 (2 * i + 1);
  qer_id = u32 (i + 1);
  precedence = 100;
}

pub demo_dl_pdr : ℕ → Pdr
demo_dl_pdr i = record {
  pdr_id = u32 (2 * i + 2);
  teid = u32 (base_teid + i);
  ue_ip = u32 (base_ue_ip + i);
  dir = dl;
  far_id = u32 (2 * i + 2);
  qer_id = u32 (i + 1);
  precedence = 100;
}

pub demo_ul_far : ℕ → Far
demo_ul_far i = record {
  far_id = u32 (2 * i + 1);
  action = forward;
  dst_ip = n6_gw_ip;
  dst_port = 0;
  encap_gtpu = false;
}

pub demo_dl_far : ℕ → Far
demo_dl_far i = record {
  far_id = u32 (2 * i + 2);
  action = forward;
  dst_ip = gnb_n3_ip;
  dst_port = 2152;
  encap_gtpu = true;
}

pub demo_qer : ℕ → Qer
demo_qer i = record {
  qer_id = u32 (i + 1);
  qfi = cycle (1 ∷ 2 ∷ 9 ∷ []) i;
  ul_mbr_kbps = cycle (64 ∷ 4000 ∷ 100000 ∷ []) i;
  dl_mbr_kbps = cycle (64 ∷ 8000 ∷ 100000 ∷ []) i;
  ul_gbr_kbps = cycle (64 ∷ 2000 ∷ 0 ∷ []) i;
  dl_gbr_kbps = cycle (64 ∷ 4000 ∷ 0 ∷ []) i;
}

-- The body of the loop, in its order.
pub add_demo_ue : RuleTable → ℕ → RuleTable
unfolding add_pdr add_far add_qer demo_ul_pdr demo_dl_pdr demo_ul_far demo_dl_far demo_qer
add_demo_ue rt i =
    let rt1 = add_pdr rt (demo_ul_pdr i) in
    let rt2 = add_pdr rt1 (demo_dl_pdr i) in
    let rt3 = add_far rt2 (demo_ul_far i) in
    let rt4 = add_far rt3 (demo_dl_far i) in add_qer rt4 (demo_qer i)

demo_loop : RuleTable → ℕ → ℕ → RuleTable
demo_loop rt i zero = rt
demo_loop rt i (suc left) = demo_loop (add_demo_ue rt i) (u32 (i + 1)) left

pub build_demo_rules : ℕ → RuleTable
unfolding demo_loop
build_demo_rules num_ues = demo_loop no_rules 0 num_ues
