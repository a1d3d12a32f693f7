-- ===== src/Lte/Profiles.antt =====
-- subscriber_profile.h: the profiles that the PCRF grants. A text is the list of its bytes.
use g_5g_ims_simulators.Prelude.{ℕ, Bool, true, false, ◌&&◌, List, [], ◌∷◌, ◌==◌, if◌then◌else◌}

pub record SubscriberProfile : Type 0 where
  pub apn : List ℕ
  pub qci : ℕ
  pub max_ul_bps : ℕ
  pub max_dl_bps : ℕ
  pub online_charging : Bool
  pub offline_charging : Bool
  pub charging_rule : List ℕ

abbrev pub internet : List ℕ
internet = b'i' ∷ b'n' ∷ b't' ∷ b'e' ∷ b'r' ∷ b'n' ∷ b'e' ∷ b't' ∷ []

abbrev pub ims : List ℕ
ims = b'i' ∷ b'm' ∷ b's' ∷ []

abbrev pub mms : List ℕ
mms = b'm' ∷ b'm' ∷ b's' ∷ []

abbrev pub gaming : List ℕ
gaming = b'g' ∷ b'a' ∷ b'm' ∷ b'i' ∷ b'n' ∷ b'g' ∷ []

-- `name + "_rule"`
abbrev pub rule : List ℕ → List ℕ
rule [] = b'_' ∷ b'r' ∷ b'u' ∷ b'l' ∷ b'e' ∷ []
rule (b ∷ name) = b ∷ rule name

abbrev pub internet_profile : SubscriberProfile
internet_profile = record {
  apn = internet;
  qci = 9;
  max_ul_bps = 50000000;
  max_dl_bps = 100000000;
  online_charging = false;
  offline_charging = true;
  charging_rule = rule internet;
}

abbrev pub ims_profile : SubscriberProfile
ims_profile = record {
  apn = ims;
  qci = 1;
  max_ul_bps = 5000000;
  max_dl_bps = 5000000;
  online_charging = false;
  offline_charging = false;
  charging_rule = rule ims;
}

abbrev pub mms_profile : SubscriberProfile
mms_profile = record {
  apn = mms;
  qci = 9;
  max_ul_bps = 1000000;
  max_dl_bps = 2000000;
  online_charging = false;
  offline_charging = true;
  charging_rule = rule mms;
}

abbrev pub gaming_profile : SubscriberProfile
gaming_profile = record {
  apn = gaming;
  qci = 4;
  max_ul_bps = 10000000;
  max_dl_bps = 20000000;
  online_charging = false;
  offline_charging = true;
  charging_rule = rule gaming;
}

unfoldable pub same_text : List ℕ → List ℕ → Bool
same_text [] [] = true
same_text (x ∷ xs) (y ∷ ys) = (x == y) && same_text xs ys
same_text [] (y ∷ ys) = false
same_text (x ∷ xs) [] = false

-- `get`: the registry holds the four profiles of its constructor, and every other name is given
-- the one for the internet.
unfoldable pub get : List ℕ → SubscriberProfile
unfolding same_text
get apn =
    if same_text apn internet
    then internet_profile
    else if same_text apn ims
    then ims_profile
    else if same_text apn mms
    then mms_profile
    else if same_text apn gaming
    then gaming_profile
    else internet_profile

-- `apn.empty() ? "internet" : apn`
unfoldable pub or_internet : List ℕ → List ℕ
or_internet [] = internet
or_internet (b ∷ apn) = b ∷ apn
