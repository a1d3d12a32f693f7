-- ===== src/Cbrs/System/Responses.antt =====
-- The fields that the proxy and the agent read in the stub's responses.
use g_5g_ims_simulators.Prelude.{
  ℕ, ◌-◌, ◌<◌, ◌%◌, ◌^◌, ◌≡◌, refl, sym, ◌∙◌, inl, inr, Bool-cases, List, [], ◌∷◌, ◌++◌, arith, ltb,
  lt→ltb, All, All-append,
}
use g_5g_ims_simulators.Prelude.Texts.{codes, same_text}
use g_5g_ims_simulators.Prelude.Decimal.{to_string, IsDigit, All-to_string, to_string_injective}
use g_5g_ims_simulators.Cbrs.Doubles.{Doubles}
use g_5g_ims_simulators.Cbrs.Wire.{get}
use g_5g_ims_simulators.Cbrs.Wire.Fields.{IsPlain}
use g_5g_ims_simulators.Cbrs.Wire.Objects.{text, number, Value, flat, object, IsClean, get-obj}
use g_5g_ims_simulators.Cbrs.Sas.{
  int_string, registration_response, grant_response, heartbeat_response, relinquishment_response,
}

-- The identifier that the stub makes at a value of its counter.
abbrev pub cbsd_id_of : ℕ → List ℕ
cbsd_id_of n = codes "CBSD-SAS-" ++ int_string n

Digits-IsPlain : (s : List ℕ) → All IsDigit s → All IsPlain s
Digits-IsPlain [] p = tt
Digits-IsPlain (c ∷ s) p = ((omega arith, omega arith, omega arith), Digits-IsPlain s p.1)

int_string-IsPlain : (n : ℕ) → All IsPlain (int_string n)
unfolding int_string
int_string-IsPlain n = elim (Bool-cases (ltb (n % 2 ^ 32) (2 ^ 31))) [
  | inl e ↦ rw e (Digits-IsPlain _ (All-to_string (n % 2 ^ 32)))
  | inr e ↦ rw e (omega arith, Digits-IsPlain _ (All-to_string (2 ^ 32 - n % 2 ^ 32)))
]

pub cbsd_id_of-IsPlain : (n : ℕ) → All IsPlain (cbsd_id_of n)
cbsd_id_of-IsPlain n =
    All-append IsPlain (codes "CBSD-SAS-") (int_string n) (omega arith) (int_string-IsPlain n)

pub grant_id-IsPlain : (n : ℕ) → All IsPlain (codes "GRANT-" ++ int_string n)
grant_id-IsPlain n =
    All-append IsPlain (codes "GRANT-") (int_string n) (omega arith) (int_string-IsPlain n)

small_int_string : (n : ℕ) → n < 2 ^ 31 → int_string n ≡ to_string n
unfolding int_string
small_int_string n h = rw (small, lt→ltb n (2 ^ 31) h)
  where
    small : n % 2 ^ 32 ≡ n
    small = omega arith

append_cancel : (p xs ys : List ℕ) → p ++ xs ≡ p ++ ys → xs ≡ ys
append_cancel [] xs ys e = e
append_cancel (c ∷ p) xs ys e = append_cancel p xs ys (cc)

-- The stub never makes one identifier twice while its counter does not wrap around.
pub cbsd_id_of_injective : (m n : ℕ) → m < 2 ^ 31 → n < 2 ^ 31 → cbsd_id_of m ≡ cbsd_id_of n → m ≡ n
cbsd_id_of_injective m n p q e = to_string_injective m n (
    sym (small_int_string m p)
    ∙ append_cancel (codes "CBSD-SAS-") (int_string m) (int_string n) e
    ∙ small_int_string n q)

-- `{"responseCode":0}`
abbrev success : List ℕ × Value
success = (codes "response", object ((codes "responseCode", number (codes "0")) ∷ []))

pub registration_response-cbsd_id :
    (id : List ℕ) → All IsPlain id → get (registration_response id) (codes "cbsdId") ≡ id
unfolding same_text
registration_response-cbsd_id id p =
    get-obj (codes "cbsdId")
      ((codes "type", flat (text (codes "RegistrationResponse")))
        ∷ (codes "cbsdId", flat (text id))
        ∷ (
          codes "response",
          object (
              (codes "responseCode", number (codes "0"))
              ∷ (codes "responseMessage", text (codes "SUCCESS"))
              ∷ []),
        )
        ∷ [])
      (ground arith) (omega arith, ((omega arith, p), (omega arith, tt))) (tt, (tt, (refl, tt)))

pub registration_response-code :
    (id : List ℕ)
    → All IsPlain id
    → get (registration_response id) (codes "responseCode") ≡ codes "0"
unfolding same_text
registration_response-code id p =
    get-obj (codes "responseCode")
      ((codes "type", flat (text (codes "RegistrationResponse")))
        ∷ (codes "cbsdId", flat (text id))
        ∷ (
          codes "response",
          object (
              (codes "responseCode", number (codes "0"))
              ∷ (codes "responseMessage", text (codes "SUCCESS"))
              ∷ []),
        )
        ∷ [])
      (ground arith) (omega arith, ((omega arith, p), (omega arith, tt))) (tt, (tt, (refl, tt)))

module _ (id grant_id : List ℕ) (p : All IsPlain id) (q : All IsPlain grant_id) where
  pub heartbeat_response-code :
      get (heartbeat_response id grant_id) (codes "responseCode") ≡ codes "0"
  unfolding same_text
  heartbeat_response-code =
      get-obj (codes "responseCode")
        ((codes "type", flat (text (codes "HeartbeatResponse")))
          ∷ (codes "cbsdId", flat (text id))
          ∷ (codes "grantId", flat (text grant_id))
          ∷ (codes "transmitExpireTime", flat (number (codes "3600")))
          ∷ (codes "heartbeatInterval", flat (number (codes "120")))
          ∷ success
          ∷ [])
        (ground arith)
        (
          omega arith,
          ((omega arith, p), ((omega arith, q), (omega arith, (omega arith, (omega arith, tt))))),
        )
        (tt, (tt, (tt, (tt, (tt, (refl, tt))))))

  pub relinquishment_response-code :
      get (relinquishment_response id grant_id) (codes "responseCode") ≡ codes "0"
  unfolding same_text
  relinquishment_response-code =
      get-obj (codes "responseCode")
        ((codes "type", flat (text (codes "RelinquishmentResponse")))
          ∷ (codes "cbsdId", flat (text id))
          ∷ (codes "grantId", flat (text grant_id))
          ∷ success
          ∷ [])
        (ground arith) (omega arith, ((omega arith, p), ((omega arith, q), (omega arith, tt))))
        (tt, (tt, (tt, (refl, tt))))

module _ (d : Doubles) (id grant_id : List ℕ) (p : All IsPlain id) (q : All IsPlain grant_id)
    (freq bw eirp : d.Double) where
  grant_fields : List (List ℕ × Value)
  grant_fields =
      (codes "type", flat (text (codes "GrantResponse")))
      ∷ (codes "cbsdId", flat (text id))
      ∷ (codes "grantId", flat (text grant_id))
      ∷ (codes "channelType", flat (text (codes "GAA")))
      ∷ (codes "operationFrequencyMHz", flat (number (d.flt freq)))
      ∷ (codes "operationBandwidthMHz", flat (number (d.flt bw)))
      ∷ (codes "maxEirp", flat (number (d.int_text eirp)))
      ∷ (codes "grantExpireTime", flat (number (codes "3600")))
      ∷ (codes "heartbeatInterval", flat (number (codes "120")))
      ∷ success
      ∷ []

  grant_fields-IsClean : All IsClean grant_fields
  unfolding grant_fields
  grant_fields-IsClean = (
    omega arith,
    (
      (omega arith, p),
      (
        (omega arith, q),
        (
          omega arith,
          (
            (omega arith, d.flt-IsPlain freq),
            (
              (omega arith, d.flt-IsPlain bw),
              (
                (omega arith, d.int_text-IsPlain eirp),
                (omega arith, (omega arith, (omega arith, tt))),
              ),
            ),
          ),
        ),
      ),
    ),
  )

  pub grant_response-code :
      get (grant_response d id grant_id freq bw eirp) (codes "responseCode") ≡ codes "0"
  unfolding same_text grant_fields
  grant_response-code =
      get-obj (codes "responseCode") grant_fields (ground arith) grant_fields-IsClean
        (tt, (tt, (tt, (tt, (tt, (tt, (tt, (tt, (tt, (refl, tt))))))))))

  pub grant_response-grant_id :
      get (grant_response d id grant_id freq bw eirp) (codes "grantId") ≡ grant_id
  unfolding same_text grant_fields
  grant_response-grant_id =
      get-obj (codes "grantId") grant_fields (ground arith) grant_fields-IsClean
        (tt, (tt, (tt, (tt, (tt, (tt, (tt, (tt, (tt, (refl, tt))))))))))
