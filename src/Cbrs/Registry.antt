-- ===== src/Cbrs/Registry.antt =====
-- proxy/cbsd_registry.h: what the proxy knows of each CBSD. The numbers of the grant are those of
-- `Doubles`.
use g_5g_ims_simulators.Prelude.{ℕ, Option, none, some, List, [], length}
use g_5g_ims_simulators.Prelude.Texts
use g_5g_ims_simulators.Cbrs.SpectrumState.{SpectrumState, registered, granted}

pub record CbsdInfo (Double : Type 0) : Type 0 where
  pub cbsd_id : List ℕ
  pub fcc_id : List ℕ
  pub call_sign : List ℕ
  pub category : List ℕ
  pub latitude : Double
  pub longitude : Double
  pub height_meters : Double
  pub antenna_gain_dbi : Double
  pub state : SpectrumState
  pub grant_id : List ℕ
  pub grant_freq_mhz : Double
  pub grant_bw_mhz : Double
  pub max_eirp : Double

-- `store_`: the entries by their identifier.
abbrev pub CbsdRegistry : Type 0 → Type 0
CbsdRegistry Double = List (List ℕ × CbsdInfo Double)

module _ {Double : Type 0} where
  unfoldable pub upsert : CbsdInfo Double → CbsdRegistry Double → CbsdRegistry Double
  upsert info store = Texts.insert info.cbsd_id info store

  unfoldable pub get : List ℕ → CbsdRegistry Double → Option (CbsdInfo Double)
  get id store = Texts.find id store

  -- A write through the iterator that `find` returns, if it finds one.
  unfoldable pub change :
      (CbsdInfo Double → CbsdInfo Double) → List ℕ → CbsdRegistry Double → CbsdRegistry Double
  unfolding get
  change f id store = elim (get id store) [
    | none ↦ store
    | some info ↦ Texts.insert id (f info) store
  ]

  unfoldable pub set_state : List ℕ → SpectrumState → CbsdRegistry Double → CbsdRegistry Double
  unfolding change
  set_state id s store = change (λ info. record info { state = s }) id store

  unfoldable pub set_grant :
      List ℕ → List ℕ → Double → Double → Double → CbsdRegistry Double → CbsdRegistry Double
  unfolding change
  set_grant id grant_id freq bw eirp store =
      change
        (λ info. record info {
          grant_id = grant_id;
          grant_freq_mhz = freq;
          grant_bw_mhz = bw;
          max_eirp = eirp;
          state = granted;
        })
        id store

  unfoldable pub clear_grant : List ℕ → CbsdRegistry Double → CbsdRegistry Double
  unfolding change
  clear_grant id store = change (λ info. record info { grant_id = []; state = registered }) id store

  unfoldable pub remove : List ℕ → CbsdRegistry Double → CbsdRegistry Double
  remove id store = Texts.erase id store

  abbrev pub count : CbsdRegistry Double → ℕ
  count store = length store
