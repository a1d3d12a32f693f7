-- ===== src/Lte/Hss.antt =====
-- hss_node.cpp: authentication vectors for the MME. `draw seed i` is what the `i`-th call of a
-- `std::mt19937` with that seed returns.
use g_5g_ims_simulators.Prelude.{
  ℕ, zero, suc, ◌+◌, ◌/◌, ◌%◌, ◌^◌, bit_xor, Option, none, some, List, [], ◌∷◌, map, take,
  replicate, ◌==◌, if◌then◌else◌,
}
use g_5g_ims_simulators.Lte.Tag
use g_5g_ims_simulators.Lte.MessageType
use g_5g_ims_simulators.Lte.Tlv.{
  Ie, ie_u64, ie_bytes, udp_payload, new_reader, Case, case_u32, case_u64, parse, Outcome, ok,
  ◌>>=◌,
}
use g_5g_ims_simulators.Lte.Pcrf.{next}
use g_5g_ims_simulators.Lte.Mme.Context.{AuthVectors}

pub record HssNode : Type 0 where
  pub next_seq : ℕ

pub record Air : Type 0 where
  pub imsi : ℕ
  pub plmn : ℕ

abbrev pub air_default : Air
air_default = record { imsi = 0; plmn = 0 }

abbrev pub air_cases : List (Case Air)
air_cases =
    case_u64 Tag.dia_imsi (λ s v. record s { imsi = v })
    ∷ case_u32 Tag.dia_plmn (λ s v. record s { plmn = v })
    ∷ []

-- `static_cast<uint32_t>(imsi ^ (imsi >> 32))`
abbrev pub seed_of : ℕ → ℕ
seed_of imsi = bit_xor imsi (imsi / 2 ^ 32) % 2 ^ 32

module _ (draw : ℕ → ℕ → ℕ) where
  -- `count` bytes from the `i`-th draw on.
  unfoldable pub rand_bytes : ℕ → ℕ → ℕ → List ℕ
  rand_bytes seed i zero = []
  rand_bytes seed i (suc count) = draw seed i % 2 ^ 8 ∷ rand_bytes seed (i + 1) count

  unfoldable pub generate_auth_vectors : ℕ → AuthVectors
  unfolding rand_bytes
  generate_auth_vectors imsi =
      let rand = rand_bytes (seed_of imsi) 0 16 in
      record {
        rand = rand;
        autn = map (λ b. bit_xor b 0xAA) rand;
        xres = map (λ b. bit_xor b 0x55) (take 8 rand);
        kasme = replicate 32 0;
      }

  abbrev pub aia_ies : ℕ → AuthVectors → List Ie
  aia_ies imsi av =
      ie_u64 Tag.dia_imsi imsi
      ∷ ie_bytes Tag.dia_rand av.rand
      ∷ ie_bytes Tag.dia_autn av.autn
      ∷ ie_bytes Tag.dia_xres av.xres
      ∷ ie_bytes Tag.dia_kasme av.kasme
      ∷ []

  -- `handleAIR`, with the answer that it sends.
  unfoldable pub handle_air : HssNode → List ℕ → Outcome (HssNode × List ℕ)
  handle_air s payload = do
    f ← parse air_cases air_default (new_reader payload).rest
    ok (
      record s { next_seq = next s.next_seq },
      udp_payload MessageType.dia_aia s.next_seq (aia_ies f.imsi (generate_auth_vectors f.imsi)),
    )

  -- One round of `receiveLoop` with a payload, of any length.
  unfoldable pub receive : HssNode → List ℕ → Outcome (HssNode × Option (List ℕ))
  unfolding handle_air
  receive s payload =
      if (new_reader payload).msg_type == MessageType.dia_air
      then (handle_air s payload >>= λ (s', answer). ok (s', some answer))
      else ok (s, none)
