-- ===== src/Ims/Sip.antt =====
-- ims/sip.h: the message types and tags of the IMS nodes, which go through the same writer and reader
-- as those of the 4G nodes; and the loops of the nodes that stop at a tag.
use g_5g_ims_simulators.Prelude.{
  ℕ, zero, suc, Bool, true, false, none, some, List, [], ◌∷◌, length, ◌==◌, ◌||◌, if◌then◌else◌,
}
use g_5g_ims_simulators.Prelude.Texts.{same_text}
use g_5g_ims_simulators.Lte.Tlv.{
  has_more, peek, read_bytes, skip, Outcome, ok, out_of_bounds, out_of_fuel,
}
use g_5g_ims_simulators.Cbrs.Wire.{after}

abbrev pub sip_register : ℕ
sip_register = 0x0501

abbrev pub sip_invite : ℕ
sip_invite = 0x0502

abbrev pub sip_ack : ℕ
sip_ack = 0x0503

abbrev pub sip_bye : ℕ
sip_bye = 0x0504

abbrev pub sip_cancel : ℕ
sip_cancel = 0x0505

abbrev pub sip_100_trying : ℕ
sip_100_trying = 0x0510

abbrev pub sip_180_ringing : ℕ
sip_180_ringing = 0x0511

abbrev pub sip_183_progress : ℕ
sip_183_progress = 0x0512

abbrev pub sip_200_ok : ℕ
sip_200_ok = 0x0513

abbrev pub dia_cx_sar : ℕ
dia_cx_sar = 0x0603

abbrev pub dia_cx_saa : ℕ
dia_cx_saa = 0x0604

abbrev pub tag_from : ℕ
tag_from = 0x0500

abbrev pub tag_to : ℕ
tag_to = 0x0501

abbrev pub tag_contact : ℕ
tag_contact = 0x0502

abbrev pub tag_call_id : ℕ
tag_call_id = 0x0503

abbrev pub tag_impu : ℕ
tag_impu = 0x0507

abbrev pub tag_impi : ℕ
tag_impi = 0x0508

abbrev pub tag_sdp : ℕ
tag_sdp = 0x050A

abbrev pub tag_reason : ℕ
tag_reason = 0x050C

abbrev pub tag_cx_impu : ℕ
tag_cx_impu = 0x0600

abbrev pub tag_cx_impi : ℕ
tag_cx_impi = 0x0601

abbrev pub tag_cx_scscf_name : ℕ
tag_cx_scscf_name = 0x0603

-- `while (r.hasMore()) { if (!r.peek(tag, len)) break; if (tag == t) { v = r.readStr(); break; }
-- else r.skip(); }`, where every round needs one unit of fuel.
unfoldable pub first_str_loop : ℕ → ℕ → List ℕ → Outcome (List ℕ)
first_str_loop t zero r = out_of_fuel
first_str_loop t (suc fuel) r =
    let rest = first_str_loop t fuel (skip r) in
    if has_more r
    then elim (peek r) [
      | none ↦ ok []
      | some (tag, len) ↦
          if tag == t
          then elim (read_bytes r) [ none ↦ out_of_bounds | some (v, r') ↦ ok v ]
          else rest
    ]
    else ok []

-- The loop with the fuel that is enough.
unfoldable pub first_str : ℕ → List ℕ → Outcome (List ℕ)
unfolding first_str_loop
first_str t r = first_str_loop t (suc (length r)) r

-- `s.find(part) != std::string::npos`
unfoldable pub contains : List ℕ → List ℕ → Bool
unfolding after
contains part s = elim (after part s) [ none ↦ false | some rest ↦ true ]

-- Sets of texts: `count(x) > 0` and `erase(x)`.
unfoldable pub member : List ℕ → List (List ℕ) → Bool
member x [] = false
member x (y ∷ set) = same_text y x || member x set

unfoldable pub without : List ℕ → List (List ℕ) → List (List ℕ)
without x [] = []
without x (y ∷ set) = let rest = without x set in if same_text y x then rest else y ∷ rest
