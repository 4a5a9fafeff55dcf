-- ===== src/Billing.antt =====
-- internal/billing/tiers.go: the limits of each tier. The children model the Stripe service and the
-- handlers of internal/billing.
pub mod Stripe
pub mod Webhook
pub mod Checkout
pub mod Settlement
pub mod Replay
use controlplane.Prelude.{
  ℕ, Bool, true, false, not, ◌&&◌, ◌||◌, String, codes, text_eq, if◌then◌else◌,
}

pub record TierLimits : Type 0 where
  pub max_stations : ℕ
  pub max_tenants : ℕ
  pub max_platforms : ℕ
  pub max_quality : String
  pub watermark : Bool
  pub dsp : Bool
  pub custom_overlays : Bool
  pub analytics : String
  pub storage : String

abbrev pub free_limits : TierLimits
free_limits = record {
  max_stations = 1;
  max_tenants = 1;
  max_platforms = 1;
  max_quality = "720p";
  watermark = true;
  dsp = false;
  custom_overlays = false;
  analytics = "basic";
  storage = "unlimited";
}

abbrev pub starter_limits : TierLimits
starter_limits = record free_limits { watermark = false }

abbrev pub pro_limits : TierLimits
pro_limits = record {
  max_stations = 1;
  max_tenants = 2;
  max_platforms = 3;
  max_quality = "1080p";
  watermark = false;
  dsp = true;
  custom_overlays = true;
  analytics = "full";
  storage = "unlimited";
}

abbrev pub studio_limits : TierLimits
studio_limits = record pro_limits { max_stations = 3; max_tenants = 3; max_quality = "4k" }

abbrev pub is_tier : String → String → Bool
is_tier a b = text_eq (codes a) (codes b)

-- An unknown tier has the limits of the free one.
unfoldable pub get_limits : String → TierLimits
get_limits tier =
    if is_tier tier "starter"
    then starter_limits
    else if is_tier tier "pro"
    then pro_limits
    else if is_tier tier "studio"
    then studio_limits
    else free_limits

unfoldable pub is_valid_tier : String → Bool
is_valid_tier tier =
    is_tier tier "free" || is_tier tier "starter" || is_tier tier "pro" || is_tier tier "studio"

unfoldable pub is_paid_tier : String → Bool
unfolding is_valid_tier
is_paid_tier tier = not (is_tier tier "free") && is_valid_tier tier
