-- ===== src/Esp/Tests.antt =====
-- Theorems on esp01/esp01.c and esp01/serial.c at the device of the test data.
use esp_hostdriver.Prelude.{ℕ, ◌≡◌, ◌≢◌, refl, arith, none, List, [], ◌∷◌, ◌++◌, ◌≤◌}
use esp_hostdriver.Prelude.Codes.{codes}
use esp_hostdriver.Host.{inval, ok, World, done}
use esp_hostdriver.Host.Partial.{IfDone}
use esp_hostdriver.Host.Ret.{ret, fail}
use esp_hostdriver.Inet.{inet_match_addr}
use esp_hostdriver.Bos.{find_fd}
use esp_hostdriver.Net.Device.{NetdevOps}
use esp_hostdriver.Net.Calls.{bos_connect}
use esp_hostdriver.Net.Recv.{IsSock, with_sock}
use esp_hostdriver.Serial.Line.{line_kind, parse_ipd}
use esp_hostdriver.Serial.Line.Ipd.{ipd_line, parse_ipd-ipd_line}
use esp_hostdriver.Serial.Reader.{
  SerialClient, accept_loop, read_until_signal, serial_idle, reply_result,
}
use esp_hostdriver.Serial.Command.{serial_cmd_wait}
use esp_hostdriver.Serial.Reply.{IsLine, serial_cmd_wait-answer}
use esp_hostdriver.Serial.Bound.{Fits, reader-Fits}
use esp_hostdriver.Esp.Fuel.{loops-Rounds}
use esp_hostdriver.Serial.Fuel.{Reads, Lists}
use esp_hostdriver.Esp.Links.{get_link_id}
use esp_hostdriver.Esp.Notice.{esp_client}
use esp_hostdriver.Esp.Format.{Arg, send_format}
use esp_hostdriver.Esp.Format.Text.{format_text, writes, send_format-writes}
use esp_hostdriver.Esp.Driver.{esp_ops, esp_connect, esp_listen, esp_close}
use esp_hostdriver.Esp.Driver.Answer.{answered, IsComing}
use esp_hostdriver.Esp.Driver.Operations.{
  IsOpen, settle, number, connect_text, esp_connect_lem, esp_listen_lem, esp_close_lem,
}
use esp_hostdriver.Esp.Connect.{assigned, bos_connect-esp_connect}
use esp_hostdriver.Samples.{
  program, node_of, fd_of, dgram_socket, no_addr, server_addr, stream_socket, driver_state, device,
}

send_format-writes_example :
    send_format (codes "AT+X=%d,%s%%") (Arg.int 7 ∷ Arg.str (codes "a") ∷ []) (program [])
    ≡ writes
        (format_text (codes "AT+X=%d,%s%%") (Arg.int 7 ∷ Arg.str (codes "a") ∷ []))
        (program [])
send_format-writes_example =
    send_format-writes (codes "AT+X=%d,%s%%") (Arg.int 7 ∷ Arg.str (codes "a") ∷ []) (program [])

parse_ipd-ipd_line_example : parse_ipd (ipd_line 3 5 0xc0a80401 333) ≡ record {
  link_id = 3;
  count = 5;
  remote = record { domain = 0; inet = record { addr = 0xc0a80401; port = 333 } };
}
parse_ipd-ipd_line_example =
    parse_ipd-ipd_line 3 5 0xc0a80401 333 (omega arith) (omega arith) (omega arith) (omega arith)

abbrev client : SerialClient
client = esp_client 0 no_addr 10

abbrev before : List ℕ
before = 0 ∷ 0 ∷ 0 ∷ 0 ∷ 0 ∷ 0 ∷ 0 ∷ 0 ∷ 0 ∷ []

-- The device echoes a word and says that all is well; something else follows.
abbrev answering : World
answering = program (codes "AT\nOK\nmore")

echo-IsLine : IsLine client before (codes "AT")
unfolding line_kind
echo-IsLine = record {
  plain = ((omega arith, omega arith), ((omega arith, omega arith), tt));
  fits = omega arith;
  is_other = refl;
}

ok-IsLine : IsLine client before (codes "OK")
unfolding line_kind
ok-IsLine = record {
  plain = ((omega arith, omega arith), ((omega arith, omega arith), tt));
  fits = omega arith;
  is_other = refl;
}

echo_result : reply_result none (codes "AT\n") ≡ inval
unfolding reply_result
echo_result = refl

ok_result : reply_result none (codes "OK\n") ≡ ok
unfolding reply_result
ok_result = refl

ok-inval : ok ≢ inval
ok-inval e = cc

serial_cmd_wait-answer_example :
    serial_cmd_wait client before answering
    ≡ done (ret 0) (record answering {
      serial = record answering.serial {
        line = [];
        input = codes "more";
        cmd_result = ok;
        output = codes "\n";
      };
    })
serial_cmd_wait-answer_example =
    serial_cmd_wait-answer client before (codes "AT" ∷ []) (codes "OK") (codes "more") ok answering
      ((echo-IsLine, echo_result), tt) (ok-IsLine, ok_result, ok-inval) refl refl

answering-IsComing : IsComing client before answering none ok (codes "more")
answering-IsComing = record {
  skipped = codes "AT" ∷ [];
  answer = codes "OK";
  ignored = ((echo-IsLine, echo_result), tt);
  answers = (ok-IsLine, ok_result, ok-inval);
  start = refl;
  coming = refl;
}

stream-IsOpen : IsOpen answering 21 11 stream_socket driver_state
stream-IsOpen = record {
  device = device;
  socket_at = refl;
  device_at = refl;
  driver_at = refl;
  data_of = refl;
}

esp_connect_lem_example :
    esp_connect client before 21 answering
    ≡ settle ok 11
        (record driver_state { links = 9 ∷ 21 ∷ 0 ∷ 0 ∷ 0 ∷ [] })
        (answered answering none (connect_text 1 stream_socket.ty server_addr) ok (codes "more"))
unfolding get_link_id
esp_connect_lem_example = esp_connect_lem client before stream-IsOpen answering-IsComing

abbrev drivers : ℕ → NetdevOps
drivers n = esp_ops client before

dgram-IsSock : IsSock answering 1 20 dgram_socket
unfolding find_fd
dgram-IsSock = record {
  fd = fd_of 1 2;
  node = node_of 20;
  fd_at = refl;
  node_at = refl;
  some_sock = λ e. omega arith;
  sock_at = refl;
}

bos_connect-esp_connect_example :
    let connected = assigned dgram_socket dgram_socket.ty server_addr ((10, device) ∷ []) in
    bos_connect drivers 1 server_addr 12 answering
    ≡ settle ok 11
        (record driver_state { links = 9 ∷ 20 ∷ 0 ∷ 0 ∷ 0 ∷ [] })
        (answered
          (with_sock answering 20 connected)
          none
          (connect_text 1 dgram_socket.ty server_addr)
          ok
          (codes "more"))
unfolding get_link_id inet_match_addr
bos_connect-esp_connect_example =
    bos_connect-esp_connect client before drivers dgram_socket dgram_socket.ty server_addr
      ((10, device) ∷ []) dgram-IsSock (refl, tt) refl refl refl
      (record {
        device = device;
        is_there = λ e. omega arith;
        device_at = refl;
        driver_at = refl;
        connects = refl;
      })
      answering-IsComing

esp_listen_lem_example :
    esp_listen client before 21 0 answering
    ≡ settle ok 11
        (record driver_state { tcp_server = 21 })
        (answered answering none (codes "AT+CIPSERVER=1," ++ number 80) ok (codes "more"))
esp_listen_lem_example = esp_listen_lem client before stream-IsOpen answering-IsComing 0

esp_close_lem_example : esp_close client before 21 answering ≡ done fail answering
unfolding get_link_id
esp_close_lem_example = esp_close_lem client before stream-IsOpen answering-IsComing

reader-Fits_example :
    IfDone (λ _ v. Fits v) (read_until_signal client 7 before answering)
    × IfDone (λ _ v. Fits v) (serial_idle client 7 before answering)
reader-Fits_example = reader-Fits client before 7 answering (omega arith)

loops-Rounds_example :
    ((n : ℕ) × (n ≤ 10)
      × Reads client before answering n (read_until_signal client 40 before answering))
    × ((n : ℕ) × (n ≤ 10)
        × Lists client
            (codes "1")
            answering
            0
            []
            n
            (accept_loop client 40 (codes "1") 0 [] answering))
loops-Rounds_example = loops-Rounds 0 no_addr 10 before (codes "1") [] 0 40 answering (omega arith)
