-- ===== src/Policy/Purpose.antt =====
-- src/domain/paymentPurpose.ts: the purposes that each provider may serve.
use trade_pal_africa.Base.{
  Bool, true, false, not, List, [], ◌∷◌, any, if◌then◌else◌, Result, ok, err, ◌≡◌, refl,
}

pub data PaymentPurpose : Type 0 where
  platform_subscription merchant_sale : PaymentPurpose

pub data PaymentProviderId : Type 0 where
  pawapay flutterwave simulator : PaymentProviderId

pub data PurposeError : Type 0 where
  forbidden : PaymentProviderId → PaymentPurpose → PurposeError

unfoldable pub purpose_policy : PaymentProviderId → List PaymentPurpose
purpose_policy pawapay = platform_subscription ∷ []
purpose_policy flutterwave = platform_subscription ∷ []
purpose_policy simulator = merchant_sale ∷ []

abbrev pub same_purpose : PaymentPurpose → PaymentPurpose → Bool
same_purpose platform_subscription platform_subscription = true
same_purpose merchant_sale merchant_sale = true
same_purpose _ _ = false

unfoldable pub is_provider_allowed_for_purpose : PaymentProviderId → PaymentPurpose → Bool
unfolding purpose_policy
is_provider_allowed_for_purpose provider purpose =
    any (same_purpose purpose) (purpose_policy provider)

unfoldable pub assert_provider_allowed_for_purpose :
    PaymentProviderId → PaymentPurpose → Result PurposeError (Unit {0})
unfolding is_provider_allowed_for_purpose
assert_provider_allowed_for_purpose provider purpose =
    if not (is_provider_allowed_for_purpose provider purpose)
    then err (forbidden provider purpose)
    else ok tt

-- The money of subscriptions and that of merchants' sales never pass through one provider: two
-- purposes that a provider is let through for are the same.
pub one_purpose :
    (provider : PaymentProviderId) (a b : PaymentPurpose)
    → assert_provider_allowed_for_purpose provider a ≡ ok tt
    → assert_provider_allowed_for_purpose provider b ≡ ok tt
    → a ≡ b
unfolding assert_provider_allowed_for_purpose
one_purpose pawapay platform_subscription platform_subscription h k = refl
one_purpose pawapay platform_subscription merchant_sale h k = cc
one_purpose pawapay merchant_sale b h k = cc
one_purpose flutterwave platform_subscription platform_subscription h k = refl
one_purpose flutterwave platform_subscription merchant_sale h k = cc
one_purpose flutterwave merchant_sale b h k = cc
one_purpose simulator merchant_sale merchant_sale h k = refl
one_purpose simulator merchant_sale platform_subscription h k = cc
one_purpose simulator platform_subscription b h k = cc
