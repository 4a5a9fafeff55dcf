-- ===== src/Billing/Stripe.antt =====
-- internal/billing/stripe.go: the service. The Stripe library and the JSON decoder are parameters:
-- `Gateway`.
use controlplane.Prelude.{
  is_empty, text_or_empty, ℕ, Option, none, some, List, [], ◌∷◌, Text, String, text_eq,
  if◌then◌else◌, head?,
}
use controlplane.Billing.{is_tier}

-- The fields of the decoded payloads. Reading a missing key of the metadata gives the empty string.
pub record SessionJson : Type 0 where
  pub customer : Text
  pub subscription : Text
  pub customer_email : Text
  pub metadata : String → String

pub record SubscriptionJson : Type 0 where
  pub id : Text
  pub customer : Text
  pub status : Text
  -- `items.data[i].price.id`
  pub prices : List Text

pub record Event : Type 0 where
  pub kind : Text
  pub raw : Text

pub record CheckoutRequest : Type 0 where
  pub tier : String
  pub success_url : Text
  pub cancel_url : Text

pub record Gateway : Type 0 where
  -- `webhook.ConstructEvent` with the secret, the payload and the signature.
  pub construct_event : Text → Text → Text → Option Event
  -- `json.Unmarshal`
  pub decode_session : Text → Option SessionJson
  pub decode_subscription : Text → Option SubscriptionJson
  -- The database driver reads a UUID.
  pub parse_uuid : String → Option ℕ
  -- The URL of a new session, if Stripe makes one.
  pub new_checkout : Text → Text → CheckoutRequest → Option Text
  pub new_portal : Text → Text → Option Text

pub record Service : Type 0 where
  pub webhook_secret : Text
  pub prices : List (String × Text)
  pub price_to_tier : List (Text × String)

-- The loop over the prices; the entry that is written last for a price id is found first.
pub reversed : List (String × Text) → List (Text × String) → List (Text × String)
reversed [] acc = acc
reversed ((tier, price) ∷ rest) acc =
    reversed rest (if is_empty price then acc else (price, tier) ∷ acc)

unfoldable pub new_service : Text → List (String × Text) → Service
new_service secret prices = record {
  webhook_secret = secret;
  prices = prices;
  price_to_tier = reversed prices [];
}

pub tier_for : Text → List (Text × String) → Option String
tier_for price [] = none
tier_for price ((p, tier) ∷ rest) =
    let found = tier_for price rest in if text_eq p price then some tier else found

-- An unknown price is the free tier.
unfoldable pub get_tier_from_price_id : Service → Text → String
get_tier_from_price_id v price = elim (tier_for price v.price_to_tier) [
  | none ↦ "free"
  | some tier ↦ tier
]

pub price_for : String → List (String × Text) → Text
price_for tier [] = []
price_for tier ((t, price) ∷ rest) =
    let found = price_for tier rest in if is_tier t tier then price else found

unfoldable pub get_price_id : Service → String → Text
get_price_id v tier = price_for tier v.prices

unfoldable pub verify_webhook : Gateway → Service → Text → Text → Option Event
verify_webhook g v payload signature = g.construct_event payload signature v.webhook_secret

pub record SubscriptionData : Type 0 where
  pub id : Text
  pub customer_id : Text
  pub price_id : Text
  pub status : Text

abbrev pub first_price : SubscriptionJson → SubscriptionData
first_price sub = record {
  id = sub.id;
  customer_id = sub.customer;
  price_id = text_or_empty (head? sub.prices);
  status = sub.status;
}

abbrev pub option_map {ℓ κ} : {A : Type ℓ} {B : Type κ} → (A → B) → Option A → Option B
option_map f none = none
option_map f (some a) = some (f a)

unfoldable pub parse_subscription : Gateway → Text → Option SubscriptionData
parse_subscription g raw = option_map first_price (g.decode_subscription raw)

pub record CheckoutSessionData : Type 0 where
  pub customer_id : Text
  pub subscription_id : Text
  pub customer_email : Text
  pub metadata : String → String

abbrev pub session_data : SessionJson → CheckoutSessionData
session_data s = record {
  customer_id = s.customer;
  subscription_id = s.subscription;
  customer_email = s.customer_email;
  metadata = s.metadata;
}

unfoldable pub parse_checkout_session : Gateway → Text → Option CheckoutSessionData
parse_checkout_session g raw = option_map session_data (g.decode_session raw)
