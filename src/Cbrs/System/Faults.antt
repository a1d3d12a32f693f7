-- ===== src/Cbrs/System/Faults.antt =====
-- What goes wrong between agent, proxy and SAS stub.
use g_5g_ims_simulators.Prelude.{
  ℕ, ◌≤◌, ◌≡◌, ◌≢◌, refl, inl, inr, true, none, some, List, [], ◌∷◌, length, arith,
}
use g_5g_ims_simulators.Prelude.Texts.{codes, same_text}
use g_5g_ims_simulators.Cbrs.Doubles.{Doubles}
use g_5g_ims_simulators.Cbrs.Wire
use g_5g_ims_simulators.Cbrs.Wire.{deliver, read_frame, after, strip, token, to_quote, to_end}
use g_5g_ims_simulators.Cbrs.Wire.Frames.{deliver_cases}
use g_5g_ims_simulators.Cbrs.SpectrumState.{registered}
use g_5g_ims_simulators.Cbrs.Sas.{Sas, handle_request, grant, number_or}
use g_5g_ims_simulators.Cbrs.Sas.Stream.{Stub, in_step, reacted, serve}
use g_5g_ims_simulators.Cbrs.Sas.Responses.{type_of_nothing}
use g_5g_ims_simulators.Cbrs.Proxy.{Thread, info_of, rejection, handle_message, update}

module _ (d : Doubles) (s : Sas) (req : List ℕ) where
  grant_throws :
      Wire.get req (codes "operationFrequencyMHz") ≢ []
      → d.stod (Wire.get req (codes "operationFrequencyMHz")) ≡ none
      → grant d s req ≡ none
  unfolding grant
  grant_throws some_text bad =
      rw (number (Wire.get req (codes "operationFrequencyMHz")) some_text bad)
    where
      number : (x : List ℕ) → x ≢ [] → d.stod x ≡ none → number_or d x (d.of_nat 3555) ≡ none
      number [] ne b = absurd (ne refl)
      number (c ∷ x) ne b = unfold number_or in b

-- The stub ends, and nothing of an answer is in the stream.
stub_ends :
    (d : Doubles) (s : Sas) (req : List ℕ)
    → length req ≤ 65536
    → Wire.get req (codes "type") ≡ codes "GrantRequest"
    → Wire.get req (codes "operationFrequencyMHz") ≢ []
    → d.stod (Wire.get req (codes "operationFrequencyMHz")) ≡ none
    → serve d (in_step (some s)) req ≡ (in_step none, none)
unfolding serve reacted
stub_ends d s req h type ne bad = elim (deliver_cases req (omega arith)) [
  | inr lost ↦ rw (lost, reacted) (unfold read_frame in refl)
  | inl there ↦ rw (there, throws, reacted) (unfold read_frame in refl)
]
  where
    throws : handle_request d s req ≡ none
    throws = unfold handle_request same_text in rw type (grant_throws d s req ne bad)

update_nothing : (d : Doubles) (t : Thread d.Double) (req : List ℕ) → update d t req [] ≡ (t, true)
unfolding update same_text
update_nothing d t req = rw type_of_nothing

no_answer :
    (d : Doubles) (c : Stub) (t : Thread d.Double) (req : List ℕ)
    → serve d c req ≡ (in_step none, none)
    → rejection (Wire.get req (codes "type")) (info_of d t).state ≡ none
    → handle_message d (serve d) c t req ≡ (in_step none, t, [], true)
unfolding handle_message
no_answer d c t req e passed = rw (passed, handle_message) (rw (e, update_nothing d t req))

-- With nothing left in the stub's stream, a GrantRequest of a registered CBSD whose frequency
-- std::stod refuses ends the stub: the proxy has no response to it, and none to any request of any
-- CBSD after it, whose thread then changes nothing.
pub one_bad_number :
    (d : Doubles) (s : Sas) (t t2 : Thread d.Double) (req req2 : List ℕ)
    → length req ≤ 65536
    → Wire.get req (codes "type") ≡ codes "GrantRequest"
    → (info_of d t).state ≡ registered
    → Wire.get req (codes "operationFrequencyMHz") ≢ []
    → d.stod (Wire.get req (codes "operationFrequencyMHz")) ≡ none
    → rejection (Wire.get req2 (codes "type")) (info_of d t2).state ≡ none
    → (handle_message d (serve d) (in_step (some s)) t req ≡ (in_step none, t, [], true))
      × (handle_message d (serve d) (in_step none) t2 req2 ≡ (in_step none, t2, [], true))
one_bad_number d s t t2 req req2 h type st ne bad pass2 = (
  no_answer d (in_step (some s)) t req (stub_ends d s req h type ne bad) pass1,
  no_answer d (in_step none) t2 req2 (unfold serve reacted read_frame in refl) pass2,
)
  where
    pass1 : rejection (Wire.get req (codes "type")) (info_of d t).state ≡ none
    pass1 = rw (type, st) (unfold rejection same_text in refl)
