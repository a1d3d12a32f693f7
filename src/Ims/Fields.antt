-- ===== src/Ims/Fields.antt =====
-- The fields of the messages of the IMS nodes, and the cases of the loops that read them.
use g_5g_ims_simulators.Prelude.{ℕ, List, []}
use g_5g_ims_simulators.Lte.Tlv.{Case, case_bytes}
use g_5g_ims_simulators.Ims.Sip.{
  tag_from, tag_to, tag_contact, tag_call_id, tag_impu, tag_impi, tag_sdp, tag_reason,
}

-- The fields that the loops over a message set.
pub record Fields : Type 0 where
  pub from : List ℕ
  pub to : List ℕ
  pub impu : List ℕ
  pub impi : List ℕ
  pub contact : List ℕ
  pub call_id : List ℕ
  pub reason : List ℕ
  pub sdp : List ℕ

abbrev pub no_fields : Fields
no_fields = record {
  from = [];
  to = [];
  impu = [];
  impi = [];
  contact = [];
  call_id = [];
  reason = [];
  sdp = [];
}

abbrev pub from_case : Case Fields
from_case = case_bytes tag_from (λ f v. record f { from = v })

abbrev pub to_case : Case Fields
to_case = case_bytes tag_to (λ f v. record f { to = v })

abbrev pub call_id_case : Case Fields
call_id_case = case_bytes tag_call_id (λ f v. record f { call_id = v })

abbrev pub sdp_case : Case Fields
sdp_case = case_bytes tag_sdp (λ f v. record f { sdp = v })

abbrev pub reason_case : Case Fields
reason_case = case_bytes tag_reason (λ f v. record f { reason = v })

abbrev pub impu_case : Case Fields
impu_case = case_bytes tag_impu (λ f v. record f { impu = v })

abbrev pub impi_case : Case Fields
impi_case = case_bytes tag_impi (λ f v. record f { impi = v })

abbrev pub contact_case : Case Fields
contact_case = case_bytes tag_contact (λ f v. record f { contact = v })
