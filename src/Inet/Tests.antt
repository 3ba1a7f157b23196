-- ===== src/Inet/Tests.antt =====
-- Tests of net/inet.c, and its theorems at concrete addresses.
use esp_hostdriver.Prelude.{◌≡◌, refl, true, false, arith}
use esp_hostdriver.Prelude.Codes.{codes}
use esp_hostdriver.Inet.{Mode, Enc, InetDevCfg, inet_addr, inet_ntoa, inet_match_addr}
use esp_hostdriver.Inet.RoundTrip.{inet_addr-inet_ntoa, inet_ntoa_cut}
use esp_hostdriver.Libc.Decimal.{atoi, print_d}
use esp_hostdriver.Libc.Strings.{tokens}

-- The configuration that `main` builds.
abbrev cfg : InetDevCfg
cfg = record {
  mode = Mode.ap;
  ssid = codes "mainart";
  hostname = codes "not-supported";
  dhcp = true;
  ip = 0xc0a80001;
  gw = 0xc0a80001;
  netmask = 0xffffff00;
  enc = Enc.wpa2_psk;
  password = codes "deadbeef";
}

inet_addr-text : inet_addr (codes "192.168.0.1") ≡ 0xc0a80001
unfolding inet_addr tokens atoi
inet_addr-text = refl

inet_ntoa-text : inet_ntoa 0xc0a80001 16 ≡ codes "192.168.0.1"
unfolding inet_ntoa print_d
inet_ntoa-text = refl

match_own_net : inet_match_addr cfg (record { addr = 0xc0a80063; port = 80 }) 12 ≡ true
unfolding inet_match_addr
match_own_net = refl

match_other_net : inet_match_addr cfg (record { addr = 0xc0a80163; port = 80 }) 12 ≡ false
unfolding inet_match_addr
match_other_net = refl

inet_addr-inet_ntoa_example : inet_addr (inet_ntoa 0xffffffff 16) ≡ 0xffffffff
inet_addr-inet_ntoa_example = inet_addr-inet_ntoa 0xffffffff 16 (omega arith) (omega arith)

-- 192.168.123.145 becomes 192.168.123.14.
inet_ntoa_cut_example : inet_addr (inet_ntoa 0xc0a87b91 15) ≡ 0xc0a87b0e
inet_ntoa_cut_example =
    inet_ntoa_cut 0xc0a87b91 (omega arith) (omega arith) (omega arith) (omega arith) (omega arith)
