-- ===== src/Esp/Init/Tests.antt =====
-- `esp01_init` with a device that starts.
use esp_hostdriver.Prelude.{ℕ, ◌≡◌, ◌≢◌, refl, true, none, some, List, [], ◌∷◌, arith}
use esp_hostdriver.Prelude.Codes.{codes}
use esp_hostdriver.Host.{inval, ok, World, done}
use esp_hostdriver.Host.Ret.{ret}
use esp_hostdriver.Serial.Line.{line_kind}
use esp_hostdriver.Serial.Reader.{reply_result}
use esp_hostdriver.Serial.Reply.{IsLine}
use esp_hostdriver.Esp.Driver.Answer.{answered, IsComing}
use esp_hostdriver.Esp.Init.{no_client, esp01_init}
use esp_hostdriver.Esp.Init.Result.{registered, initialised, IsFresh, esp01_init_lem}
use esp_hostdriver.Samples.{program, device_cfg}

abbrev before : List ℕ
before = 0 ∷ 0 ∷ 0 ∷ 0 ∷ 0 ∷ 0 ∷ 0 ∷ 0 ∷ 0 ∷ []

abbrev starting : World
starting = program (codes "ready\nOK\n")

ready-IsLine : IsLine no_client before (codes "ready")
unfolding line_kind
ready-IsLine = record {
  plain = (
    (omega arith, omega arith),
    (
      (omega arith, omega arith),
      ((omega arith, omega arith), ((omega arith, omega arith), ((omega arith, omega arith), tt))),
    ),
  );
  fits = omega arith;
  is_other = refl;
}

ok-IsLine : IsLine no_client before (codes "OK")
unfolding line_kind
ok-IsLine = record {
  plain = ((omega arith, omega arith), ((omega arith, omega arith), tt));
  fits = omega arith;
  is_other = refl;
}

ready_result : reply_result (some (codes "ready")) (codes "ready\n") ≡ ok
unfolding reply_result
ready_result = refl

ok_result : reply_result none (codes "OK\n") ≡ ok
unfolding reply_result
ok_result = refl

ok-inval : ok ≢ inval
ok-inval e = cc

ready-IsComing : IsComing no_client before starting (some (codes "ready")) ok (codes "OK\n")
ready-IsComing = record {
  skipped = [];
  answer = codes "ready";
  ignored = tt;
  answers = (ready-IsLine, ready_result, ok-inval);
  start = refl;
  coming = refl;
}

ok-IsComing :
    IsComing no_client before
      (answered starting (some (codes "ready")) [] ok (codes "OK\n"))
      none
      ok
      []
ok-IsComing = record {
  skipped = [];
  answer = codes "OK";
  ignored = tt;
  answers = (ok-IsLine, ok_result, ok-inval);
  start = refl;
  coming = refl;
}

starting-IsFresh : IsFresh starting
starting-IsFresh = record {
  no_driver = refl;
  no_device = refl;
  not_listed = ((λ e. omega arith), tt);
}

esp01_init_lem_example :
    esp01_init true device_cfg 1 before starting
    ≡ done (ret 0, 101) (initialised (registered device_cfg 1 starting 3) ok (codes "OK\n") ok [])
esp01_init_lem_example =
    esp01_init_lem device_cfg 1 before starting 3 refl (omega arith) ok ok (codes "OK\n") []
      starting-IsFresh ready-IsComing ok-IsComing
