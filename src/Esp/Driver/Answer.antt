-- ===== src/Esp/Driver/Answer.antt =====
-- A command of esp01/esp01.c whose answer is on its way: what it writes, what it returns, and what
-- the operations then store.
use esp_hostdriver.Prelude.{ℕ, ◌≡◌, refl, Option, some, List, [], ◌∷◌, ◌++◌}
use esp_hostdriver.Host.{CmdResult, inval, World, done}
use esp_hostdriver.Serial.Reader.{SerialClient}
use esp_hostdriver.Serial.Command.{serial_cmd_start, result_ret}
use esp_hostdriver.Serial.Reply.{Ignored, Answers, joined, serial_cmd_wait-answer}
use esp_hostdriver.Esp.Format.{Arg, send_cmd}
use esp_hostdriver.Esp.Format.Text.{format_text, written, send_format-writes}

-- The state after a command with the text `text` that was answered with `r`.
abbrev pub answered : World → Option (List ℕ) → List ℕ → CmdResult → List ℕ → World
answered w resp text r rest = record w {
  serial = record w.serial {
    response = resp;
    cmd_result = r;
    line = [];
    input = rest;
    output = w.serial.output ++ text ++ 10 ∷ [];
  };
}

module _ (client : SerialClient) (before : List ℕ) where
  -- The reader is at the start of a line, and the device sends lines that are no answer to a command
  -- that expects `resp`, then one that is with the result `r`, then `rest`.
  pub record IsComing (w : World) (resp : Option (List ℕ)) (r : CmdResult) (rest : List ℕ)
      : Type 0 where
    pub skipped : List (List ℕ)
    pub answer : List ℕ
    pub ignored : Ignored client before resp skipped
    pub answers : Answers client before resp answer r
    pub start : w.serial.line ≡ []
    pub coming : w.serial.input ≡ joined client before skipped ++ (answer ++ 10 ∷ rest)

  -- `send_cmd` with an argument of the right type for each conversion of its format writes the text of
  -- the format and a newline, takes the input up to the answer, and returns the answer's result.
  pub send_cmd-answer :
      {w : World} {r : CmdResult} {rest : List ℕ} (resp : Option (List ℕ)) (fmt : List ℕ)
      (args : List Arg) (text : List ℕ)
      → format_text fmt args ≡ some text
      → IsComing w resp r rest
      → send_cmd client before resp fmt args w ≡ done (result_ret r) (answered w resp text r rest)
  unfolding send_cmd serial_cmd_start
  send_cmd-answer {w} {r} {rest} resp fmt args text is c =
      let v : World = record w {
        serial = record w.serial { cmd_result = inval; response = resp };
      } in
      rw
        (
          send_format-writes fmt args v,
          is,
          serial_cmd_wait-answer client before c.skipped c.answer rest r (written v text) c.ignored
              c.answers c.start c.coming,
        )
        refl
