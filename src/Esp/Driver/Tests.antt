-- ===== src/Esp/Driver/Tests.antt =====
-- `send` on a link of the device of the test data, and `configure` of that device.
use esp_hostdriver.Prelude.{
  ℕ, ◌≡◌, ◌≢◌, refl, arith, none, some, List, [], ◌∷◌, ◌++◌, ◌==◌, if◌then◌else◌,
}
use esp_hostdriver.Prelude.Codes.{codes}
use esp_hostdriver.Host.{CmdResult, inval, ok, err, Esp, World, done}
use esp_hostdriver.Host.Ret.{fail}
use esp_hostdriver.Serial.Line.{line_kind}
use esp_hostdriver.Serial.Reader.{SerialClient, reply_result}
use esp_hostdriver.Serial.Reply.{IsLine}
use esp_hostdriver.Esp.Links.{get_link_id}
use esp_hostdriver.Esp.Notice.{esp_client}
use esp_hostdriver.Esp.Driver.{esp_configure, esp_send}
use esp_hostdriver.Esp.Driver.Answer.{answered, IsComing}
use esp_hostdriver.Esp.Driver.Operations.{IsOpen}
use esp_hostdriver.Esp.Driver.Configure.{
  configure_texts, AreComing, all_answered, esp_configure_lem,
}
use esp_hostdriver.Esp.Driver.Send.{sent, sent_state, send_text, esp_send_lem}
use esp_hostdriver.Samples.{program, no_addr, stream_socket, driver_state, device_cfg, device}

abbrev client : SerialClient
client = esp_client 0 no_addr 10

abbrev before : List ℕ
before = 0 ∷ 0 ∷ 0 ∷ 0 ∷ 0 ∷ 0 ∷ 0 ∷ 0 ∷ 0 ∷ []

abbrev linked : Esp
linked = record { links = 9 ∷ 21 ∷ 0 ∷ 0 ∷ 0 ∷ []; tcp_server = 0 }

-- The device will take the command, and then the bytes.
abbrev taking : World
taking = record (program (codes "OK\nSEND OK\n")) {
  esps = λ p. if p == 11 then some linked else none;
}

stream-IsOpen : IsOpen taking 21 11 stream_socket linked
stream-IsOpen = record {
  device = device;
  socket_at = refl;
  device_at = refl;
  driver_at = refl;
  data_of = refl;
}

ok-IsLine : IsLine client before (codes "OK")
unfolding line_kind
ok-IsLine = record {
  plain = ((omega arith, omega arith), ((omega arith, omega arith), tt));
  fits = omega arith;
  is_other = refl;
}

send_ok-IsLine : IsLine client before (codes "SEND OK")
unfolding line_kind
send_ok-IsLine = record {
  plain = (
    (omega arith, omega arith),
    (
      (omega arith, omega arith),
      (
        (omega arith, omega arith),
        (
          (omega arith, omega arith),
          (
            (omega arith, omega arith),
            ((omega arith, omega arith), ((omega arith, omega arith), tt)),
          ),
        ),
      ),
    ),
  );
  fits = omega arith;
  is_other = refl;
}

ok_result : reply_result none (codes "OK\n") ≡ ok
unfolding reply_result
ok_result = refl

send_ok_result : reply_result (some (codes "SEND OK")) (codes "SEND OK\n") ≡ ok
unfolding reply_result
send_ok_result = refl

ok-inval : ok ≢ inval
ok-inval e = cc

ok_comes :
    (w : World) (rest : List ℕ)
    → w.serial.line ≡ []
    → w.serial.input ≡ codes "OK\n" ++ rest
    → IsComing client before w none ok rest
ok_comes w rest start coming = record {
  skipped = [];
  answer = codes "OK";
  ignored = tt;
  answers = (ok-IsLine, ok_result, ok-inval);
  start = start;
  coming = coming;
}

command-IsComing : IsComing client before taking none ok (codes "SEND OK\n")
command-IsComing = ok_comes _ _ refl refl

bytes-IsComing :
    IsComing client before
      (answered taking none [] ok (codes "SEND OK\n"))
      (some (codes "SEND OK"))
      ok
      []
bytes-IsComing = record {
  skipped = [];
  answer = codes "SEND OK";
  ignored = tt;
  answers = (send_ok-IsLine, send_ok_result, ok-inval);
  start = refl;
  coming = refl;
}

esp_send_lem_example :
    esp_send client before 21 (codes "abc") 3 taking
    ≡ sent client before ok ok 3
        (answered taking none
          (send_text 1 3 stream_socket.ty stream_socket.addr)
          ok
          (codes "SEND OK\n"))
        (sent_state client before stream-IsOpen (codes "SEND OK\n") [] ok (codes "abc") 3 1)
unfolding get_link_id
esp_send_lem_example =
    esp_send_lem client before stream-IsOpen (codes "SEND OK\n") [] ok (codes "abc") 3
      command-IsComing (λ _. bytes-IsComing)

error-IsLine : IsLine client before (codes "ERROR")
unfolding line_kind
error-IsLine = record {
  plain = (
    (omega arith, omega arith),
    (
      (omega arith, omega arith),
      ((omega arith, omega arith), ((omega arith, omega arith), ((omega arith, omega arith), tt))),
    ),
  );
  fits = omega arith;
  is_other = refl;
}

error_result : reply_result none (codes "ERROR\n") ≡ err
unfolding reply_result
error_result = refl

err-inval : err ≢ inval
err-inval e = cc

-- The device refuses the third of the five commands.
abbrev refusing : World
refusing = program (codes "OK\nOK\nERROR\nOK\nOK\n")

abbrev replies : List (CmdResult × List ℕ)
replies =
    (ok, codes "OK\nERROR\nOK\nOK\n")
    ∷ (ok, codes "ERROR\nOK\nOK\n")
    ∷ (err, codes "OK\nOK\n")
    ∷ (ok, codes "OK\n")
    ∷ (ok, [])
    ∷ []

error_comes :
    (w : World) (rest : List ℕ)
    → w.serial.line ≡ []
    → w.serial.input ≡ codes "ERROR\n" ++ rest
    → IsComing client before w none err rest
error_comes w rest start coming = record {
  skipped = [];
  answer = codes "ERROR";
  ignored = tt;
  answers = (error-IsLine, error_result, err-inval);
  start = start;
  coming = coming;
}

replies-AreComing : AreComing client before replies refusing
replies-AreComing = (
  ok_comes _ _ refl refl,
  (
    ok_comes _ _ refl refl,
    (error_comes _ _ refl refl, (ok_comes _ _ refl refl, (ok_comes _ _ refl refl, tt))),
  ),
)

esp_configure_lem_example :
    esp_configure client before 10 device_cfg refusing
    ≡ done fail (all_answered client before (configure_texts device_cfg) replies refusing)
unfolding configure_texts
esp_configure_lem_example =
    esp_configure_lem client before refusing 10 device driver_state device_cfg replies refl refl
      refl replies-AreComing
