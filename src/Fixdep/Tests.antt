-- ===== src/Fixdep/Tests.antt =====
-- Runs of scripts/build/fixdep.
use esp_hostdriver.Prelude.{
  ℕ, ◌≡◌, refl, true, false, List, [], ◌∷◌, none, some, if◌then◌else◌, arith, ne_of_==,
}
use esp_hostdriver.Prelude.Codes.{codes}
use esp_hostdriver.Libc.Strings.{str_eq}
use esp_hostdriver.Fixdep.{Tool, Run, done}
use esp_hostdriver.Fixdep.Hashtbl.Runs.{op_add, op_clear, table_run, set_run, table_run-set_run}
use esp_hostdriver.Fixdep.Hashtbl.Set.{has}
use esp_hostdriver.Fixdep.Prereq.{
  little, parse_prereq, option_end, print_option, update_prereq, offset, word_at, check_option,
  check_word, scan_words, word, int_conf,
}
use esp_hostdriver.Fixdep.Prereq.Options.{options, update_each}
use esp_hostdriver.Fixdep.Prereq.Options.Scan.{parse_prereq-options}
use esp_hostdriver.Fixdep.Files.{Os, file_map, map_open, paged, file_unmap, strrcmp, traps}
use esp_hostdriver.Fixdep.Hashtbl.{
  hashtbl_clear, clear_from, hashtbl_add, hashtbl_lookup, find_item, strhash, hash_loop,
}
use esp_hostdriver.Fixdep.Depfile.{
  fixdep_main, dep_loop, parse_dep_file, dep_round, run_length, print_rest, dep_target, dep_item,
  end_string, add_prereq, with_string, c_string,
}
use esp_hostdriver.Fixdep.Depfile.Balance.{fixdep_main_restores}
use esp_hostdriver.Fixdep.Depfile.Text.{ends_in}
use esp_hostdriver.Fixdep.Depfile.Rounds.{Dep, IsDep}
use esp_hostdriver.Fixdep.Depfile.Unmapped.{dep_loop_empty}

abbrev start : Tool
start = record { hashtab = λ i. []; budget = 8; out = []; files = []; maps = 0 }

-- Adding a name twice, and once more after the table was cleared.
table_run-set_run_example :
    table_run
      (op_clear
        ∷ op_add (codes "A") (codes ";")
        ∷ op_add (codes "A") []
        ∷ op_clear
        ∷ op_add (codes "A") []
        ∷ [])
      start
    ≡ (false ∷ true ∷ false ∷ [], none)
unfolding set_run has
table_run-set_run_example =
    table_run-set_run
      (op_add (codes "A") (codes ";")
        ∷ op_add (codes "A") []
        ∷ op_clear
        ∷ op_add (codes "A") []
        ∷ [])
      start

abbrev source : List ℕ
source = codes "x CONFIG_B;"

-- An option that does not start at a multiple of 4.
parse_prereq-options_example :
    parse_prereq (codes "c/") source 11 little start
    ≡ update_each (codes "c/") (codes "B" ∷ []) start
unfolding options option_end
parse_prereq-options_example =
    parse_prereq-options (codes "c/") source 11 (omega arith) little start

-- A dependency file `d`, a source `a`, an empty file `e`, and the header.
abbrev sample_os : Os
sample_os = record {
  open_file = λ name files. some 3;
  stats = λ name. true;
  maps_file = λ name. true;
  content = λ name.
      if str_eq name (codes "d")
      then codes "o: a h\n"
      else if str_eq name (codes "a")
      then source
      else if str_eq name (codes "h")
      then codes "#define CONFIG_B 1\n"
      else [];
}

abbrev a_dep : Dep
a_dep = record { blanks = codes " "; name = codes "a"; stop = b' ' }

abbrev h_dep : Dep
h_dep = record { blanks = []; name = codes "h"; stop = b'\n' }

abbrev after : Run ℕ → Tool
after (done code t) = t
after _ = start

abbrev sample_args : List (List ℕ)
sample_args = codes "d" ∷ codes "h" ∷ codes "c/" ∷ []

abbrev sample_end : Tool
sample_end = after (fixdep_main sample_os little sample_args start)

sample_run : fixdep_main sample_os little sample_args start ≡ done 0 sample_end
unfolding fixdep_main parse_dep_file dep_loop dep_round run_length print_rest dep_target dep_item
    end_string add_prereq with_string c_string file_map map_open paged file_unmap strrcmp traps word
    int_conf hashtbl_clear clear_from hashtbl_add hashtbl_lookup find_item strhash hash_loop
    print_option update_prereq option_end offset word_at check_option check_word scan_words
    parse_prereq
sample_run = refl

fixdep_main_restores_example : (sample_end.files ≡ []) × (sample_end.maps ≡ 0)
fixdep_main_restores_example =
    fixdep_main_restores sample_os little sample_args start sample_end 0 sample_run

abbrev e_dep : Dep
e_dep = record { blanks = codes " "; name = codes "e"; stop = b' ' }

e_IsDep : IsDep e_dep
e_IsDep = record {
  blank = (refl, tt);
  solid = (refl, tt);
  nonzero = (ne_of_== b'e' 0 refl, tt);
  ended = refl;
  some_name = omega arith;
  no_target = ne_of_== b'e' b':' refl;
}

e_no_header : ends_in (codes "e") (codes "h") ≡ false
unfolding ends_in
e_no_header = refl

-- The source behind the empty file is not printed.
dep_loop_empty_example :
    dep_loop sample_os little (codes "h") (codes "c/") 7 8 (codes " e a\n\0") 5 start
    ≡ done tt (record start { out = codes " \\\n  e" })
dep_loop_empty_example =
    dep_loop_empty sample_os little (codes "h") (codes "c/") 6 8 5 2 3 e_dep (codes "a\n\0") start
      e_IsDep (omega arith) (omega arith) e_no_header refl refl refl
