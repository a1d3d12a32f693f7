-- ===== src/Cbrs/SpectrumState.antt =====
-- proxy/spectrum_state.h: the states of a CBSD.
use g_5g_ims_simulators.Prelude.{ℕ, Bool, true, false, List}
use g_5g_ims_simulators.Prelude.Texts.{codes}

pub data SpectrumState : Type 0 where
  unregistered : SpectrumState
  registered : SpectrumState
  granted : SpectrumState
  authorized : SpectrumState

-- `stateToString`
abbrev pub state_to_string : SpectrumState → List ℕ
state_to_string unregistered = codes "UNREGISTERED"
state_to_string registered = codes "REGISTERED"
state_to_string granted = codes "GRANTED"
state_to_string authorized = codes "AUTHORIZED"

abbrev pub is_unregistered : SpectrumState → Bool
is_unregistered unregistered = true
is_unregistered _ = false

abbrev pub is_registered : SpectrumState → Bool
is_registered registered = true
is_registered _ = false

abbrev pub is_granted : SpectrumState → Bool
is_granted granted = true
is_granted _ = false

abbrev pub is_authorized : SpectrumState → Bool
is_authorized authorized = true
is_authorized _ = false
