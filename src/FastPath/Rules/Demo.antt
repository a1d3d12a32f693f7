-- ===== src/FastPath/Rules/Demo.antt =====
-- `build_demo_rules` gives every UE its two rules, and nobody else any.
use g_5g_ims_simulators.Prelude.{
  ℕ, zero, suc, ◌+◌, ◌-◌, ◌*◌, ◌^◌, ◌≤◌, ◌<◌, ◌≡◌, refl, subst, ◌⊎◌, true, false, ◌&&◌, none, some,
  arith, leb, ltb, if◌then◌else◌,
}
use mathlib.Core.Path.{subst₂}
use g_5g_ims_simulators.Prelude.Tables.{find, insert, find-insert}
use g_5g_ims_simulators.FastPath.Packet.{Direction, ul, dl, Packet}
use g_5g_ims_simulators.FastPath.Rules.{
  Pdr, Far, Qer, RuleTable, no_rules, u32, forward, match_pdr, get_far, get_qer, base_ue_ip,
  base_teid, n6_gw_ip, gnb_n3_ip, demo_ul_pdr, demo_dl_pdr, demo_ul_far, demo_dl_far, demo_qer,
  add_demo_ue, demo_loop, build_demo_rules,
}

-- The tables after the first `n` rounds.
record Built (n : ℕ) (rt : RuleTable) : Type 0 where
  ul_index :
      (t : ℕ)
      → find t rt.teid_to_pdr ≡ (
          if leb base_teid t && ltb t (base_teid + n) then some (2 * (t - base_teid) + 1) else none)
  dl_index :
      (a : ℕ)
      → find a rt.ueip_to_pdr ≡ (
          if leb base_ue_ip a && ltb a (base_ue_ip + n)
          then some (2 * (a - base_ue_ip) + 2)
          else none)
  ul_pdrs : (j : ℕ) → j < n → find (2 * j + 1) rt.pdrs ≡ some (demo_ul_pdr j)
  dl_pdrs : (j : ℕ) → j < n → find (2 * j + 2) rt.pdrs ≡ some (demo_dl_pdr j)
  ul_fars : (j : ℕ) → j < n → find (2 * j + 1) rt.fars ≡ some (demo_ul_far j)
  dl_fars : (j : ℕ) → j < n → find (2 * j + 2) rt.fars ≡ some (demo_dl_far j)
  all_qers : (j : ℕ) → j < n → find (j + 1) rt.qers ≡ some (demo_qer j)

module _ (n : ℕ) (rt : RuleTable) (small : n < 2 ^ 31 - 1) (b : Built n rt) where
  step_ul_index :
      (t : ℕ)
      → find t (add_demo_ue rt n).teid_to_pdr ≡ (
          if leb base_teid t && ltb t (base_teid + suc n)
          then some (2 * (t - base_teid) + 1)
          else none)
  unfolding add_demo_ue
  step_ul_index t =
      ground
        (arith, find-insert (u32 (base_teid + n)) t (u32 (2 * n + 1)) rt.teid_to_pdr, b.ul_index t)

  step_dl_index :
      (a : ℕ)
      → find a (add_demo_ue rt n).ueip_to_pdr ≡ (
          if leb base_ue_ip a && ltb a (base_ue_ip + suc n)
          then some (2 * (a - base_ue_ip) + 2)
          else none)
  unfolding add_demo_ue
  step_dl_index a =
      ground
        (arith, find-insert (u32 (base_ue_ip + n)) a (u32 (2 * n + 2)) rt.ueip_to_pdr, b.dl_index a)

  step_ul_pdrs :
      (j : ℕ) → j < suc n → find (2 * j + 1) (add_demo_ue rt n).pdrs ≡ some (demo_ul_pdr j)
  unfolding add_demo_ue
  step_ul_pdrs j h = ground (
    arith,
    find-insert (u32 (2 * n + 2)) (2 * j + 1) (demo_dl_pdr n)
        (insert (u32 (2 * n + 1)) (demo_ul_pdr n) rt.pdrs),
    find-insert (u32 (2 * n + 1)) (2 * j + 1) (demo_ul_pdr n) rt.pdrs,
    b.ul_pdrs j,
  )

  step_dl_pdrs :
      (j : ℕ) → j < suc n → find (2 * j + 2) (add_demo_ue rt n).pdrs ≡ some (demo_dl_pdr j)
  unfolding add_demo_ue
  step_dl_pdrs j h = ground (
    arith,
    find-insert (u32 (2 * n + 2)) (2 * j + 2) (demo_dl_pdr n)
        (insert (u32 (2 * n + 1)) (demo_ul_pdr n) rt.pdrs),
    find-insert (u32 (2 * n + 1)) (2 * j + 2) (demo_ul_pdr n) rt.pdrs,
    b.dl_pdrs j,
  )

  step_ul_fars :
      (j : ℕ) → j < suc n → find (2 * j + 1) (add_demo_ue rt n).fars ≡ some (demo_ul_far j)
  unfolding add_demo_ue
  step_ul_fars j h = ground (
    arith,
    find-insert (u32 (2 * n + 2)) (2 * j + 1) (demo_dl_far n)
        (insert (u32 (2 * n + 1)) (demo_ul_far n) rt.fars),
    find-insert (u32 (2 * n + 1)) (2 * j + 1) (demo_ul_far n) rt.fars,
    b.ul_fars j,
  )

  step_dl_fars :
      (j : ℕ) → j < suc n → find (2 * j + 2) (add_demo_ue rt n).fars ≡ some (demo_dl_far j)
  unfolding add_demo_ue
  step_dl_fars j h = ground (
    arith,
    find-insert (u32 (2 * n + 2)) (2 * j + 2) (demo_dl_far n)
        (insert (u32 (2 * n + 1)) (demo_ul_far n) rt.fars),
    find-insert (u32 (2 * n + 1)) (2 * j + 2) (demo_ul_far n) rt.fars,
    b.dl_fars j,
  )

  step_all_qers : (j : ℕ) → j < suc n → find (j + 1) (add_demo_ue rt n).qers ≡ some (demo_qer j)
  unfolding add_demo_ue
  step_all_qers j h =
      ground (arith, find-insert (u32 (n + 1)) (j + 1) (demo_qer n) rt.qers, b.all_qers j)

  step-Built : Built (suc n) (add_demo_ue rt n)
  step-Built = record {
    ul_index = step_ul_index;
    dl_index = step_dl_index;
    ul_pdrs = step_ul_pdrs;
    dl_pdrs = step_dl_pdrs;
    ul_fars = step_ul_fars;
    dl_fars = step_dl_fars;
    all_qers = step_all_qers;
  }

demo_loop-Built :
    (left n : ℕ) (rt : RuleTable)
    → n + left ≤ 2 ^ 31 - 1
    → Built n rt
    → Built (n + left) (demo_loop rt n left)
unfolding demo_loop
demo_loop-Built zero n rt h b = subst (λ (m : ℕ). Built m rt) (omega arith) b
demo_loop-Built (suc left) n rt h b =
    subst₂ (λ (m i : ℕ). Built m (demo_loop (add_demo_ue rt n) i left)) (omega arith) (omega arith)
      (demo_loop-Built left (suc n) (add_demo_ue rt n) (omega arith)
        (step-Built n rt (omega arith) b))

build-Built : (num_ues : ℕ) → num_ues ≤ 2 ^ 31 - 1 → Built num_ues (build_demo_rules num_ues)
unfolding build_demo_rules
build-Built num_ues h =
    subst (λ (m : ℕ). Built m (demo_loop no_rules 0 num_ues)) (omega arith)
      (demo_loop-Built num_ues 0 no_rules (omega arith) (record {
        ul_index = λ t. unfold find in ground arith;
        dl_index = λ a. unfold find in ground arith;
        ul_pdrs = λ j lt. absurd (omega arith);
        dl_pdrs = λ j lt. absurd (omega arith);
        ul_fars = λ j lt. absurd (omega arith);
        dl_fars = λ j lt. absurd (omega arith);
        all_qers = λ j lt. absurd (omega arith);
      }))

-- What the pipeline finds for a packet: its rule, the forwarding action and the QoS of that rule.
pub record Routed (rt : RuleTable) (pkt : Packet) (pdr : Pdr) (far : Far) (qer : Qer) : Type 0 where
  pub matched : match_pdr rt pkt ≡ some pdr
  pub far_found : get_far rt pdr.far_id ≡ some far
  pub qer_found : get_qer rt pdr.qer_id ≡ some qer

module _ (num_ues i : ℕ) (pkt : Packet) (small : num_ues ≤ 2 ^ 31 - 1) (lt : i < num_ues) where
  -- An uplink packet with the tunnel identifier of UE `i` is routed by the rules of that UE: to the
  -- internet gateway, without encapsulation.
  pub demo_uplink :
      pkt.dir ≡ ul
      → pkt.teid ≡ base_teid + i
      → Routed (build_demo_rules num_ues) pkt (demo_ul_pdr i) (demo_ul_far i) (demo_qer i)
        × ((demo_ul_pdr i).ue_ip ≡ base_ue_ip + i)
        × ((demo_ul_far i).action ≡ forward)
        × ((demo_ul_far i).dst_ip ≡ n6_gw_ip)
        × ((demo_ul_far i).encap_gtpu ≡ false)
  unfolding match_pdr get_far get_qer demo_ul_pdr demo_ul_far
  demo_uplink d t =
      let b = build-Built num_ues small in
      (
        record {
          matched = rw (d, t) (ground (arith, b.ul_index (base_teid + i), b.ul_pdrs i lt));
          far_found = ground (arith, b.ul_fars i lt);
          qer_found = ground (arith, b.all_qers i lt);
        },
        omega arith,
        refl,
        refl,
        refl,
      )

  -- A downlink packet to the address of UE `i` is routed by the rules of that UE: into a GTP-U
  -- tunnel to the gNB, at port 2152, with the tunnel identifier that the UE's uplink uses.
  pub demo_downlink :
      pkt.dir ≡ dl
      → pkt.ue_ip ≡ base_ue_ip + i
      → Routed (build_demo_rules num_ues) pkt (demo_dl_pdr i) (demo_dl_far i) (demo_qer i)
        × ((demo_dl_pdr i).teid ≡ base_teid + i)
        × ((demo_dl_far i).action ≡ forward)
        × ((demo_dl_far i).dst_ip ≡ gnb_n3_ip)
        × ((demo_dl_far i).dst_port ≡ 2152)
        × ((demo_dl_far i).encap_gtpu ≡ true)
  unfolding match_pdr get_far get_qer demo_dl_pdr demo_dl_far
  demo_downlink d a =
      let b = build-Built num_ues small in
      (
        record {
          matched = rw (d, a) (ground (arith, b.dl_index (base_ue_ip + i), b.dl_pdrs i lt));
          far_found = ground (arith, b.dl_fars i lt);
          qer_found = ground (arith, b.all_qers i lt);
        },
        omega arith,
        refl,
        refl,
        refl,
        refl,
      )

-- A tunnel identifier or an address outside of the ranges of the UEs matches no rule.
pub demo_unknown :
    (num_ues : ℕ) (pkt : Packet)
    → num_ues ≤ 2 ^ 31 - 1
    → (pkt.dir ≡ ul → (pkt.teid < base_teid) ⊎ (base_teid + num_ues ≤ pkt.teid))
    → (pkt.dir ≡ dl → (pkt.ue_ip < base_ue_ip) ⊎ (base_ue_ip + num_ues ≤ pkt.ue_ip))
    → match_pdr (build_demo_rules num_ues) pkt ≡ none
unfolding match_pdr
demo_unknown num_ues pkt small out_ul out_dl = by_dir pkt.dir refl
  where
    b : Built num_ues (build_demo_rules num_ues)
    b = build-Built num_ues small

    by_dir : (d : Direction) → pkt.dir ≡ d → match_pdr (build_demo_rules num_ues) pkt ≡ none
    by_dir ul e = rw e (ground (arith, out_ul e, b.ul_index pkt.teid))
    by_dir dl e = rw e (ground (arith, out_dl e, b.dl_index pkt.ue_ip))
