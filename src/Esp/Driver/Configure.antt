-- ===== src/Esp/Driver/Configure.antt =====
-- `configure` of esp01/esp01.c as a whole: the commands that it sends, and its result.
use esp_hostdriver.Prelude.{
  ℕ, ◌≡◌, refl, ◌∙◌, ap, inl, inr, ◌⊎◌, Bool-cases, none, some, List, [], ◌∷◌, ◌++◌, if◌then◌else◌,
  length, arith,
}
use esp_hostdriver.Prelude.Codes.{codes}
use esp_hostdriver.Prelude.Bits.{bit_or-double}
use esp_hostdriver.Inet.{Mode, InetDevCfg, inet_ntoa}
use esp_hostdriver.Host.{
  Ptr, CmdResult, inval, ok, err, busy, Netdev, Esp, World, done, Cmd, pure, ◌>>=◌, load_dev,
  load_esp,
}
use esp_hostdriver.Host.Ret.{Ret, ret, fail, or_ret}
use esp_hostdriver.Serial.Reader.{SerialClient}
use esp_hostdriver.Serial.Command.{result_ret}
use esp_hostdriver.Esp.Format.{Arg, arg_text}
use esp_hostdriver.Esp.Format.Text.{format_text}
use esp_hostdriver.Esp.Driver.{enc_code, is_ap, gw_as_string, command, esp_configure}
use esp_hostdriver.Esp.Driver.Answer.{answered, IsComing, send_cmd-answer}

-- The texts of the commands, in their order.
unfoldable pub configure_texts : InetDevCfg → List (List ℕ)
configure_texts cfg =
    let first = codes "AT+CWMODE_CUR=" ++ (if is_ap cfg.mode then codes "2" else codes "1") in
    let dhcp =
      codes "AT+CWDHCP_CUR="
      ++ ((if is_ap cfg.mode then codes "0" else codes "1")
          ++ (codes "," ++ (if cfg.dhcp then codes "1" else codes "0"))) in
    let network =
      codes "AT+CIPAP_CUR=\""
      ++ (inet_ntoa cfg.ip 15
          ++ (codes "\",\""
              ++ (inet_ntoa cfg.gw 15
                  ++ (codes "\",\"" ++ (inet_ntoa cfg.netmask 15 ++ codes "\""))))) in
    let access =
      codes "AT+CWSAP_CUR=\""
      ++ (cfg.ssid
          ++ (codes "\",\""
              ++ (cfg.password ++ (codes "\",1," ++ (enc_code cfg.enc ++ codes ",4,0"))))) in
    let station =
      codes "AT+CIPSTA_CUR=\""
      ++ (inet_ntoa cfg.ip 15
          ++ (codes "\",\""
              ++ (inet_ntoa cfg.netmask 15
                  ++ (codes "\",\"" ++ (gw_as_string cfg ++ codes "\""))))) in
    let join =
      codes "AT+CWJAP_CUR=\"" ++ (cfg.ssid ++ (codes "\",\"" ++ (cfg.password ++ codes "\""))) in
    let last : List (List ℕ) = elim cfg.mode [
      | Mode.ap ↦ network ∷ access ∷ []
      | Mode.client ↦ if cfg.dhcp then join ∷ [] else station ∷ join ∷ []
    ] in
    first ∷ codes "AT+CIPDINFO=1" ∷ dhcp ∷ last

-- The results of all commands together.
unfoldable pub merged : Ret → List (CmdResult × List ℕ) → Ret
merged acc [] = acc
merged acc ((r, rest) ∷ rs) = merged (or_ret acc (result_ret r)) rs

module _ (client : SerialClient) (before : List ℕ) where
  -- For each command an answer is on its way, with what is left of the input then.
  abbrev pub AreComing : List (CmdResult × List ℕ) → World → Type 0
  AreComing [] w = Unit
  AreComing ((r, rest) ∷ rs) w =
      IsComing client before w none r rest × AreComing rs (answered w none [] r rest)

  -- The state after commands with these texts and answers.
  abbrev pub all_answered : List (List ℕ) → List (CmdResult × List ℕ) → World → World
  all_answered (text ∷ texts) ((r, rest) ∷ rs) w =
      all_answered texts rs (answered w none text r rest)
  all_answered [] rs w = w
  all_answered (text ∷ texts) [] w = w

  AreComing-same :
      (rs : List (CmdResult × List ℕ)) (v w : World)
      → v.serial.line ≡ w.serial.line
      → v.serial.input ≡ w.serial.input
      → AreComing rs w
      → AreComing rs v
  AreComing-same [] v w l i h = tt
  AreComing-same ((r, rest) ∷ rs) v w l i (c, h) = (
    record {
      skipped = c.skipped;
      answer = c.answer;
      ignored = c.ignored;
      answers = c.answers;
      start = l ∙ c.start;
      coming = i ∙ c.coming;
    },
    AreComing-same rs (answered v none [] r rest) (answered w none [] r rest) refl refl h,
  )

  -- Commands one after the other, whatever they return.
  unfoldable run_all : List (List ℕ × List Arg) → Ret → Cmd Ret
  run_all [] acc = pure acc
  run_all ((fmt, args) ∷ cs) acc = command client before fmt args >>= λ r. run_all cs (or_ret acc r)

  -- Each command has a text.
  abbrev Printed : List (List ℕ × List Arg) → List (List ℕ) → Type 0
  Printed [] [] = Unit
  Printed ((fmt, args) ∷ cs) (text ∷ texts) = (format_text fmt args ≡ some text) × Printed cs texts
  Printed [] (text ∷ texts) = Unit
  Printed (c ∷ cs) [] = Unit

  run_all-merged :
      (cs : List (List ℕ × List Arg)) (texts : List (List ℕ)) (rs : List (CmdResult × List ℕ))
      (acc : Ret) (w : World)
      → length texts ≡ length cs
      → length rs ≡ length cs
      → Printed cs texts
      → AreComing rs w
      → run_all cs acc w ≡ done (merged acc rs) (all_answered texts rs w)
  unfolding run_all merged
  run_all-merged [] [] [] acc w lt lr p h = refl
  run_all-merged [] (t ∷ ts) rs acc w lt lr p h = absurd (omega arith)
  run_all-merged [] [] (r ∷ rs) acc w lt lr p h = absurd (omega arith)
  run_all-merged (c ∷ cs) [] rs acc w lt lr p h = absurd (omega arith)
  run_all-merged (c ∷ cs) (t ∷ ts) [] acc w lt lr p h = absurd (omega arith)
  run_all-merged ((fmt, args) ∷ cs) (t ∷ ts) ((r, rest) ∷ rs) acc w lt lr (p, ps) (h, hs) =
      let v = answered w none t r rest in
      rw (send_cmd-answer client before none fmt args t p h) (
        run_all-merged cs ts rs (or_ret acc (result_ret r)) v (omega arith) (omega arith) ps
          (AreComing-same rs v (answered w none [] r rest) refl refl hs))

  or_ret_zero : (r : Ret) → or_ret r (ret 0) ≡ r
  or_ret_zero (ret a) = ap ret (bit_or-double 0 a 0 (omega arith) ∙ omega arith)
  or_ret_zero fail = refl

  -- The commands of `configure`, in their order.
  abbrev commands : InetDevCfg → List (List ℕ × List Arg)
  commands cfg =
      let network : List ℕ × List Arg = (
        codes "AT+CIPAP_CUR=\"%a\",\"%a\",\"%a\"",
        Arg.addr cfg.ip ∷ Arg.addr cfg.gw ∷ Arg.addr cfg.netmask ∷ [],
      ) in
      let access : List ℕ × List Arg = (
        codes "AT+CWSAP_CUR=\"%s\",\"%s\",1,%s,4,0",
        Arg.str cfg.ssid ∷ Arg.str cfg.password ∷ Arg.str (enc_code cfg.enc) ∷ [],
      ) in
      let station : List ℕ × List Arg = (
        codes "AT+CIPSTA_CUR=\"%a\",\"%a\",\"%s\"",
        Arg.addr cfg.ip ∷ Arg.addr cfg.netmask ∷ Arg.str (gw_as_string cfg) ∷ [],
      ) in
      let join : List ℕ × List Arg =
        (codes "AT+CWJAP_CUR=\"%s\",\"%s\"", Arg.str cfg.ssid ∷ Arg.str cfg.password ∷ []) in
      (codes "AT+CWMODE_CUR=%s", Arg.str (if is_ap cfg.mode then codes "2" else codes "1") ∷ [])
      ∷ (codes "AT+CIPDINFO=1", [])
      ∷ (
        codes "AT+CWDHCP_CUR=%s,%s",
        Arg.str (if is_ap cfg.mode then codes "0" else codes "1")
            ∷ Arg.str (if cfg.dhcp then codes "1" else codes "0")
            ∷ [],
      )
      ∷ (elim cfg.mode [
        | Mode.ap ↦ network ∷ access ∷ []
        | Mode.client ↦ if cfg.dhcp then join ∷ [] else station ∷ join ∷ []
      ])

  mode_cases : (m : Mode) → (m ≡ Mode.ap) ⊎ (m ≡ Mode.client)
  mode_cases Mode.ap = inl refl
  mode_cases Mode.client = inr refl

  commands-Printed :
      (cfg : InetDevCfg)
      → Printed (commands cfg) (configure_texts cfg)
        × (length (configure_texts cfg) ≡ length (commands cfg))
  unfolding configure_texts format_text arg_text
  commands-Printed cfg = elim (mode_cases cfg.mode) [
    | inl m ↦ elim (Bool-cases cfg.dhcp) [
      | inl b ↦ rw (m, b) ((refl, (refl, (refl, (refl, (refl, tt))))), refl)
      | inr b ↦ rw (m, b) ((refl, (refl, (refl, (refl, (refl, tt))))), refl)
    ]
    | inr m ↦ elim (Bool-cases cfg.dhcp) [
      | inl b ↦ rw (m, b) ((refl, (refl, (refl, (refl, tt)))), refl)
      | inr b ↦ rw (m, b) ((refl, (refl, (refl, (refl, (refl, tt))))), refl)
    ]
  ]

  module _ (w : World) (dev : Ptr) (d : Netdev) (e : Esp) (device_at : w.devs dev ≡ some d)
      (driver_at : w.esps d.data' ≡ some e) where
    configure-run_all :
        (cfg : InetDevCfg)
        → esp_configure client before dev cfg w ≡ run_all (commands cfg) (ret 0) w
    unfolding esp_configure load_dev load_esp run_all
    configure-run_all cfg = elim (mode_cases cfg.mode) [
      | inl m ↦ rw (device_at, driver_at, m) refl
      | inr m ↦ elim (Bool-cases cfg.dhcp) [
        | inl b ↦
            rw (device_at, driver_at, m, b)
              (ap
                (λ (merge : Ret → Ret).
                  (command client before (codes "AT+CWMODE_CUR=%s") (Arg.str (codes "1") ∷ [])
                      >>= λ r1. command client before (codes "AT+CIPDINFO=1") [] >>= λ r2.
                          command client before (codes "AT+CWDHCP_CUR=%s,%s")
                            (Arg.str (codes "1") ∷ Arg.str (codes "1") ∷ [])
                          >>= λ r3.
                              command client before (codes "AT+CWJAP_CUR=\"%s\",\"%s\"")
                                (Arg.str cfg.ssid ∷ Arg.str cfg.password ∷ [])
                              >>= λ r5.
                                  pure
                                    (or_ret (merge (or_ret (or_ret (or_ret (ret 0) r1) r2) r3)) r5))
                    w)
                (λ i r. or_ret_zero r i))
        | inr b ↦ rw (device_at, driver_at, m, b) refl
      ]
    ]

  -- The result of `configure`: 0 if all commands got an OK, and else -1.
  abbrev pub outcome : List (CmdResult × List ℕ) → Ret
  outcome [] = ret 0
  outcome ((ok, rest) ∷ rs) = outcome rs
  outcome ((inval, rest) ∷ rs) = fail
  outcome ((err, rest) ∷ rs) = fail
  outcome ((busy, rest) ∷ rs) = fail

  merged-fail : (rs : List (CmdResult × List ℕ)) → merged fail rs ≡ fail
  unfolding merged
  merged-fail [] = refl
  merged-fail ((r, rest) ∷ rs) = merged-fail rs

  merged-outcome :
      (rs : List (CmdResult × List ℕ)) (w : World) → AreComing rs w → merged (ret 0) rs ≡ outcome rs
  unfolding merged
  merged-outcome [] w h = refl
  merged-outcome ((ok, rest) ∷ rs) w (c, h) = merged-outcome rs (answered w none [] ok rest) h
  merged-outcome ((inval, rest) ∷ rs) w (c, h) = absurd (c.answers.2 refl)
  merged-outcome ((err, rest) ∷ rs) w (c, h) = merged-fail rs
  merged-outcome ((busy, rest) ∷ rs) w (c, h) = merged-fail rs

  -- `configure` of a device whose driver's state is there, when an answer to each command of
  -- `configure_texts` is on its way: it sends those commands, in that order, also behind one that
  -- failed, and takes the input up to the last answer. It returns 0 if each answer is an OK, and else
  -- -1.
  pub esp_configure_lem :
      (w : World) (dev : Ptr) (d : Netdev) (e : Esp) (cfg : InetDevCfg)
      (rs : List (CmdResult × List ℕ))
      → w.devs dev ≡ some d
      → w.esps d.data' ≡ some e
      → length rs ≡ length (configure_texts cfg)
      → AreComing rs w
      → esp_configure client before dev cfg w
        ≡ done (outcome rs) (all_answered (configure_texts cfg) rs w)
  esp_configure_lem w dev d e cfg rs device_at driver_at size coming =
      let (printed, same_size) = commands-Printed cfg in
      configure-run_all w dev d e device_at driver_at cfg
      ∙ run_all-merged (commands cfg) (configure_texts cfg) rs (ret 0) w same_size
          (size ∙ same_size) printed coming
      ∙ ap (λ r. done r (all_answered (configure_texts cfg) rs w)) (merged-outcome rs w coming)
