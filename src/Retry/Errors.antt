-- ===== src/Retry/Errors.antt =====
-- backend/payments/providers/ProviderErrorNormalizer.ts. An error is a text with a status code, 0
-- where it has none, or an error that was normalised before.
use orbi_insitutional_core_v.Prelude.{ℕ, Bool, true, false, ◌||◌, ◌==◌, if◌then◌else◌}
use orbi_insitutional_core_v.Prelude.Text.{Text, codes, includes, to_upper, or_text}

pub data Category : Type 0 where
  rate_limit unavailable auth config timeout network rejected invalid_response unknown : Category

-- The status is 0 where the source has `undefined`.
unfoldable pub normalize_category : Text → ℕ → Category
normalize_category message status_code =
    let upper = to_upper message in
    if status_code == 429 || includes (codes "RATE LIMIT") upper
    then rate_limit
    else if status_code == 503 || (status_code == 502 || includes (codes "UNAVAILABLE") upper)
    then unavailable
    else if includes (codes "AUTH") upper
        || (includes (codes "TOKEN") upper || includes (codes "CREDENTIAL") upper)
    then auth
    else if includes (codes "CONFIG") upper || includes (codes "MISSING") upper
    then config
    else if includes (codes "TIMEOUT") upper || includes (codes "ABORTED") upper
    then timeout
    else if includes (codes "ECONN") upper
        || (includes (codes "ENOTFOUND") upper || includes (codes "NETWORK") upper)
    then network
    else if includes (codes "REJECT") upper
        || (includes (codes "DECLIN") upper || includes (codes "FAILED") upper)
    then rejected
    else if includes (codes "INVALID") upper || includes (codes "UNEXPECTED") upper
    then invalid_response
    else unknown

unfoldable pub is_retryable : Category → Bool
is_retryable network = true
is_retryable timeout = true
is_retryable rate_limit = true
is_retryable unavailable = true
is_retryable _ = false

-- `ProviderDomainError` and `NormalizedProviderError` carry the same fields; the raw error and the
-- provider's code are left out.
pub record DomainError : Type 0 where
  pub category : Category
  pub message : Text
  pub retryable : Bool
  pub status_code : ℕ

pub data Raised : Type 0 where
  raw : Text → ℕ → Raised
  domain : DomainError → Raised

abbrev message_of : Raised → Text
message_of (raw message _) = or_text message (codes "PROVIDER_ERROR")
message_of (domain e) = or_text e.message (codes "PROVIDER_ERROR")

abbrev status_of : Raised → ℕ
status_of (raw _ status_code) = status_code
status_of (domain e) = e.status_code

unfoldable pub normalize_provider_error : Raised → DomainError
unfolding normalize_category is_retryable
normalize_provider_error e = record {
  category = normalize_category (message_of e) (status_of e);
  message = message_of e;
  retryable = is_retryable (normalize_category (message_of e) (status_of e));
  status_code = status_of e;
}

-- A `ProviderDomainError` is passed on as it is.
unfoldable pub to_provider_domain_error : Raised → Raised
to_provider_domain_error (domain e) = domain e
to_provider_domain_error (raw message status_code) =
    domain (normalize_provider_error (raw message status_code))
