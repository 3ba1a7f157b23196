-- ===== src/Serial/Port/Restore.antt =====
-- What `serial_init` of esp01/serial.c leaves behind when it fails, and `esp01_init` of esp01/esp01.c.
use esp_hostdriver.Prelude.{
  ℕ, ◌+◌, ◌-◌, ◌≡◌, refl, sym, subst, ap, ap₂, Bool, true, false, Option, none, some, List, ◌∷◌,
  ==_self, arith, ◌≢◌,
}
use esp_hostdriver.Serial.Port.{
  Termios, Port, Os, close_file, line_attr, give_up, serial_init, serial_close, esp01_port,
}

-- All that `serial_init` asks of the system is granted, and `fd` is the file.
abbrev pub Granted : Os → ℕ → Type 0
Granted os fd =
    (os.memory ≡ true)
    × (os.file ≡ some fd)
    × (os.is_tty ≡ true)
    × (os.takes ≡ true)
    × (os.thread ≡ true)

-- How `esp01_init` ends, from the port `p`: with the line's attributes, a file and a reader thread more;
-- or with the attributes and threads of before. Each end has the condition under which it comes.
pub data Ended (os : Os) (p : Port) (rest_ok : Bool) : Bool → Port → Type 0 where
  no_memory : os.memory ≡ false → Ended os p rest_ok false p
  no_line :
      {q : Port}
      → os.memory ≡ true
      → ((fd : ℕ) → ¬ Granted os fd)
      → q ≡ record p { devs = p.devs + 1 }
      → Ended os p rest_ok false q
  started :
      {fd : ℕ}
      → Granted os fd
      → rest_ok ≡ true
      → Ended os p rest_ok true (record p {
        attr = line_attr;
        files = fd ∷ p.files;
        threads = p.threads + 1;
        devs = p.devs + 1;
      })
  stopped :
      {fd : ℕ} {q : Port}
      → Granted os fd
      → rest_ok ≡ false
      → q ≡ record p { files = fd ∷ p.files }
      → Ended os p rest_ok false q

close_file-same : (fd : ℕ) (fs : List ℕ) → close_file fd (fd ∷ fs) ≡ fs
close_file-same fd fs = rw (==_self fd) refl

-- The file that `err_2` closes is the one that was opened.
closed-same :
    (p : Port) (fd : ℕ)
    → record p { files = close_file fd (fd ∷ p.files); devs = p.devs + 1 }
      ≡ record p { devs = p.devs + 1 }
closed-same p fd =
    ap (λ fs. record p { files = fs; devs = p.devs + 1 }) (close_file-same fd p.files)

-- A thread and a device more, and one less.
undone :
    (p : Port) (fd : ℕ)
    → record p { files = fd ∷ p.files; threads = p.threads + 1 - 1; devs = p.devs + 1 - 1 }
      ≡ record p { files = fd ∷ p.files }
undone p fd =
    ap₂ (λ t d. record p { files = fd ∷ p.files; threads = t; devs = d }) (less p.threads)
      (less p.devs)
  where
    less : (n : ℕ) → n + 1 - 1 ≡ n
    less n = omega arith

none-some : {fd : ℕ} → none ≢ some fd
none-some e = cc

false-true : false ≢ true
false-true e = cc

module _ (junk : Termios) (p : Port) where
  esp01_port-cases :
      (memory : Bool) (file : Option ℕ) (is_tty takes thread rest_ok : Bool)
      → let os : Os = record {
        memory = memory;
        file = file;
        is_tty = is_tty;
        takes = takes;
        takes_back = true;
        thread = thread;
      } in
        Ended os p rest_ok (esp01_port os junk rest_ok p).0 (esp01_port os junk rest_ok p).1
  unfolding esp01_port serial_init give_up serial_close
  esp01_port-cases false file is_tty takes thread rest_ok = no_memory refl
  esp01_port-cases true none is_tty takes thread rest_ok = no_line refl (λ f g. none-some g.1) refl
  esp01_port-cases true (some fd) false takes thread rest_ok =
      no_line refl (λ f g. false-true g.2) (closed-same p fd)
  esp01_port-cases true (some fd) true false thread rest_ok =
      no_line refl (λ f g. false-true g.3) (closed-same p fd)
  esp01_port-cases true (some fd) true true false rest_ok =
      no_line refl (λ f g. false-true g.4) (closed-same p fd)
  esp01_port-cases true (some fd) true true true true = started (refl, refl, refl, refl, refl) refl
  esp01_port-cases true (some fd) true true true false =
      stopped (refl, refl, refl, refl, refl) refl (undone p fd)

  -- If a terminal takes its old attributes back, `esp01_init` ends in one of four ways. Without memory
  -- for a `serial_t` it fails and changes nothing. If the file does not open, is no terminal, does not
  -- take the attributes, or the reader thread does not start, it fails: the attributes, the files and the
  -- threads are those of before, and the memory of the `serial_t` is lost. If all that is granted and
  -- what follows succeeds, it succeeds, with the line's attributes, the file, a reader thread and a
  -- `serial_t` more. If all that is granted and what follows fails, it fails: the attributes and the
  -- threads are those of before and the memory is freed, but the file stays open.
  pub esp01_port-Ended :
      (os : Os) (rest_ok : Bool)
      → os.takes_back ≡ true
      → Ended os p rest_ok (esp01_port os junk rest_ok p).0 (esp01_port os junk rest_ok p).1
  esp01_port-Ended os rest_ok back =
      subst
        (λ b.
          let os' : Os = record os { takes_back = b } in
          Ended os' p rest_ok (esp01_port os' junk rest_ok p).0 (esp01_port os' junk rest_ok p).1)
        (sym back) (esp01_port-cases os.memory os.file os.is_tty os.takes os.thread rest_ok)
