-- ===== src/Esp/Format/Text.antt =====
-- What `send_cmd` of esp01/esp01.c writes for a format and its arguments, as a text.
use esp_hostdriver.Prelude.{
  ℕ, ◌≡◌, refl, ap, ◌∙◌, sym, inl, inr, Bool-cases, Option, none, some, List, [], ◌∷◌, ◌++◌,
  append_assoc, append-nil, ◌==◌, if◌then◌else◌,
}
use esp_hostdriver.Host.{World, done, fault, Cmd, and_then, pure, expect, ◌>>=◌, ◌>>◌}
use esp_hostdriver.Serial.Reader.{write_line}
use esp_hostdriver.Serial.Command.{serial_cmd_send, serial_cmd_send_char}
use esp_hostdriver.Esp.Format.{Arg, takes_arg, arg_text, convert, send_format}

-- `s` in front of a text, if there is one.
abbrev pub prefixed : List ℕ → Option (List ℕ) → Option (List ℕ)
prefixed s none = none
prefixed s (some t) = some (s ++ t)

-- What one conversion stands for, and the arguments that it leaves.
abbrev pub conversion : ℕ → List Arg → Option (List ℕ × List Arg)
conversion k [] = if takes_arg k then none else some (k ∷ [], [])
conversion k (x ∷ xs) =
    if takes_arg k
    then elim (arg_text k x) [ none ↦ none | some t ↦ some (t, xs) ]
    else some (k ∷ [], x ∷ xs)

-- The text of a format: its characters, and for each `%` and the character behind it the text of an
-- argument, or that character; a lone `%` at the end is nothing. None if an argument is wanting or of
-- another type.
abbrev pub then_text : Option (List ℕ × List Arg) → (List Arg → Option (List ℕ)) → Option (List ℕ)
then_text none f = none
then_text (some (t, xs)) f = prefixed t (f xs)

unfoldable pub format_text : List ℕ → List Arg → Option (List ℕ)
format_text [] args = some []
format_text (c ∷ []) args = if c == b'%' then some [] else some (c ∷ [])
format_text (c ∷ k ∷ fmt) args =
    let converted = then_text (conversion k args) (format_text fmt) in
    let plain = prefixed (c ∷ []) (format_text (k ∷ fmt) args) in
    if c == b'%' then converted else plain

-- The state behind a write of some bytes.
abbrev pub written : World → List ℕ → World
written w bytes = record w { serial = record w.serial { output = w.serial.output ++ bytes } }

abbrev pub writes : Option (List ℕ) → Cmd (Unit {0})
writes none w = fault
writes (some t) w = done tt (written w t)

nothing_written : (w : World) → w ≡ written w []
nothing_written w =
    ap (λ o. record w { serial = record w.serial { output = o } })
      (sym (append-nil w.serial.output))

written-append : (w : World) (s t : List ℕ) → written (written w s) t ≡ written w (s ++ t)
written-append w s t =
    ap (λ o. record w { serial = record w.serial { output = o } })
      (append_assoc w.serial.output s t)

writes-prefixed :
    (w : World) (s : List ℕ) (o : Option (List ℕ))
    → writes o (written w s) ≡ writes (prefixed s o) w
writes-prefixed w s none = refl
writes-prefixed w s (some t) = ap (done tt) (written-append w s t)

abbrev after : Option (List ℕ × List Arg) → Cmd (List Arg)
after none w = fault
after (some (t, xs)) w = done xs (written w t)

convert-after :
    (k : ℕ) (args : List Arg) (w : World) → convert k args w ≡ after (conversion k args) w
unfolding convert serial_cmd_send serial_cmd_send_char write_line
convert-after k [] w = elim (Bool-cases (takes_arg k)) [ inl e ↦ rw e refl | inr e ↦ rw e refl ]
convert-after k (x ∷ xs) w = elim (Bool-cases (takes_arg k)) [
  | inl e ↦ rw e (from (arg_text k x))
  | inr e ↦ rw e refl
]
  where
    from :
        (o : Option (List ℕ))
        → (expect o >>= λ text. serial_cmd_send text >> pure xs) w
          ≡ after (elim o [ none ↦ none | some t ↦ some (t, xs) ]) w
    from none = refl
    from (some t) = refl

-- A run that continues with a step that writes.
writes-after :
    (r : Option (List ℕ × List Arg)) (w : World) (f : List Arg → Cmd (Unit {0}))
    (g : List Arg → Option (List ℕ))
    → ((xs : List Arg) (v : World) → f xs v ≡ writes (g xs) v)
    → and_then (after r w) f ≡ writes (then_text r g) w
writes-after none w f g h = refl
writes-after (some (t, xs)) w f g h = h xs (written w t) ∙ writes-prefixed w t (g xs)

-- The loop of `send_cmd` over a format writes its text and changes nothing else, if there is an
-- argument of the right type for each conversion; and else it meets a fault.
pub send_format-writes :
    (fmt : List ℕ) (args : List Arg) (w : World)
    → send_format fmt args w ≡ writes (format_text fmt args) w
unfolding send_format format_text convert serial_cmd_send serial_cmd_send_char write_line
send_format-writes [] args w = ap (done tt) (nothing_written w)
send_format-writes (c ∷ []) args w = elim (Bool-cases (c == b'%')) [
  | inl e ↦ rw e (ap (done tt) (nothing_written w))
  | inr e ↦ rw e refl
]
send_format-writes (c ∷ k ∷ fmt) args w = elim (Bool-cases (c == b'%')) [
  | inl e ↦ rw e (
      rw (convert-after k args w) (
        writes-after (conversion k args) w (send_format fmt) (format_text fmt)
          (send_format-writes fmt)))
  | inr e ↦ rw e (
      send_format-writes (k ∷ fmt) args (written w (c ∷ []))
      ∙ writes-prefixed w (c ∷ []) (format_text (k ∷ fmt) args))
]
