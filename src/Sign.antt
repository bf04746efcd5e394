-- ===== src/Sign.antt =====
-- src/utils/SignUtil.cc. OpenSSL's HMAC-SHA256 is the parameter `hmac`: key and data to the bytes
-- of the digest.
use trade_reconcile_system.Base.{
  Bool, [], false, if◌then◌else◌, length, ltb, ℕ, ◌%◌, ◌++◌, ◌+◌, ◌-◌, ◌/◌, ◌==◌, ◌∷◌,
}
use trade_reconcile_system.Base.Bytes.{Bytes, str_eq}

-- kHex
hex_digit : ℕ → ℕ
hex_digit d = if ltb d 10 then b'0' + d else b'a' + (d - 10)

unfoldable pub to_hex : Bytes → Bytes
unfolding hex_digit
to_hex [] = []
to_hex (b ∷ md) = hex_digit (b / 16) ∷ hex_digit (b % 16) ∷ to_hex md

unfoldable pub hmac_sha256_hex : (Bytes → Bytes → Bytes) → Bytes → Bytes → Bytes
unfolding to_hex
hmac_sha256_hex hmac key data_ = to_hex (hmac key data_)

unfoldable pub canonical : Bytes → Bytes → Bytes → Bytes → Bytes
canonical order_no channel_trade_no amount timestamp =
    order_no ++ b'|' ∷ channel_trade_no ++ b'|' ∷ amount ++ b'|' ∷ timestamp

-- The sizes first, then `CRYPTO_memcmp`.
unfoldable pub verify_mock_sign :
    (Bytes → Bytes → Bytes) → Bytes → Bytes → Bytes → Bytes → Bytes → Bytes → Bool
unfolding hmac_sha256_hex canonical
verify_mock_sign hmac secret order_no channel_trade_no amount timestamp sign =
    let expected =
      hmac_sha256_hex hmac secret (canonical order_no channel_trade_no amount timestamp) in
    if length expected == length sign then str_eq expected sign else false
