-- ===== src/Ims/Ue.antt =====
-- ue_sim.cpp: the messages of a UE.
use g_5g_ims_simulators.Prelude.{ℕ, List, [], ◌∷◌}
use g_5g_ims_simulators.Prelude.Texts.{codes}
use g_5g_ims_simulators.Lte.Tlv.{Ie, ie_bytes}
use g_5g_ims_simulators.Ims.Sip.{
  tag_from, tag_to, tag_call_id, tag_impu, tag_impi, tag_contact, tag_sdp, tag_reason,
}

-- The REGISTER of a UE with the identities and the contact.
abbrev pub register_ies : List ℕ → List ℕ → List ℕ → List Ie
register_ies impu impi contact =
    ie_bytes tag_from impu
    ∷ ie_bytes tag_impu impu
    ∷ ie_bytes tag_impi impi
    ∷ ie_bytes tag_contact contact
    ∷ []

abbrev pub invite_ies : List ℕ → List ℕ → List ℕ → List ℕ → List Ie
invite_ies impu callee call_id sdp =
    ie_bytes tag_from impu
    ∷ ie_bytes tag_to callee
    ∷ ie_bytes tag_call_id call_id
    ∷ ie_bytes tag_sdp sdp
    ∷ []

-- The 200 OK of a callee that accepts.
abbrev pub accept_ies : List ℕ → List ℕ → List Ie
accept_ies call_id sdp =
    ie_bytes tag_call_id call_id ∷ ie_bytes tag_reason (codes "INVITE") ∷ ie_bytes tag_sdp sdp ∷ []

abbrev pub bye_ies : List ℕ → List Ie
bye_ies call_id = ie_bytes tag_call_id call_id ∷ []
