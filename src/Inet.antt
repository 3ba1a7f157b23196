-- ===== src/Inet.antt =====
-- net/inet.c and include/inet.h: IPv4 addresses as text and as words, and how an address is matched
-- with a device.
pub mod RoundTrip
mod Tests
use Prim.Native.Nat.{bit_and, bit_or}
use mathlib.Core.List.{foldl}
use esp_hostdriver.Prelude.{
  ℕ, ◌*◌, ◌/◌, ◌%◌, ◌^◌, Bool, true, false, List, [], ◌∷◌, ◌++◌, ◌==◌, if◌then◌else◌,
}
use esp_hostdriver.Libc.Decimal.{print_d, atoi}
use esp_hostdriver.Libc.Strings.{tokens, cut}

-- `inet_dev_mode_t`
pub data Mode : Type 0 where
  ap client : Mode

-- `inet_enc_t`
pub data Enc : Type 0 where
  enc_open wpa_psk wpa2_psk wpa_wpa2_psk : Enc

-- `inet_dev_cfg_t`
pub record InetDevCfg : Type 0 where
  pub mode : Mode
  pub ssid : List ℕ
  pub hostname : List ℕ
  pub dhcp : Bool
  pub ip : ℕ
  pub gw : ℕ
  pub netmask : ℕ
  pub enc : Enc
  pub password : List ℕ

-- `inet_data_t`
pub record InetData : Type 0 where
  pub addr : ℕ
  pub port : ℕ

-- `INET_ADDR_ANY`
abbrev pub inet_addr_any : ℕ
inet_addr_any = 0

-- The body of the loop of `inet_addr`: `(iaddr << 8) | atoi(tk)` on `uint32_t`.
unfoldable pub add_token : ℕ → List ℕ → ℕ
add_token iaddr tk = bit_or (iaddr * 2 ^ 8 % 2 ^ 32) (atoi tk)

-- `inet_addr`
unfoldable pub inet_addr : List ℕ → ℕ
unfolding add_token
inet_addr s = foldl add_token 0 (tokens b'.' [] s)

-- `BITS8`
unfoldable pub bits8 : ℕ → ℕ → ℕ
bits8 v shift = bit_and v (0xff * 2 ^ shift) / 2 ^ shift

-- The text that `inet_ntoa` formats.
unfoldable pub dotted : ℕ → List ℕ
unfolding bits8
dotted addr =
    print_d (bits8 addr 24)
    ++ (b'.'
        ∷ (print_d (bits8 addr 16)
            ++ (b'.' ∷ (print_d (bits8 addr 8) ++ (b'.' ∷ print_d (bits8 addr 0))))))

-- `inet_ntoa`: what it leaves in `s`.
unfoldable pub inet_ntoa : ℕ → ℕ → List ℕ
unfolding dotted
inet_ntoa addr len = cut len (dotted addr)

-- `sizeof(sock_addr_inet_t)`: the domain, the address and the port, with padding.
abbrev pub sizeof_sock_addr_inet : ℕ
sizeof_sock_addr_inet = 12

-- `inet_match_addr`; the device is given by its configuration.
unfoldable pub inet_match_addr : InetDevCfg → InetData → ℕ → Bool
inet_match_addr cfg remote addr_len =
    if addr_len == sizeof_sock_addr_inet
    then (if remote.addr == inet_addr_any
        then true
        else bit_and cfg.ip cfg.netmask == bit_and remote.addr cfg.netmask)
    else false
