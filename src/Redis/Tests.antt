-- ===== src/Redis/Tests.antt =====
-- Runs over a small Redis.
mod Keys
use distributed_instant_mess.Base.{
  ℕ, ◌+◌, ◌-◌, ◌<◌, ◌≡◌, refl, ap, ◌∙◌, inr, false, Option, none, some, [], ◌∷◌, ◌++◌, arith,
  length, take, drop, take-append, drop-append,
}
use distributed_instant_mess.Base.Text.{Text}
use distributed_instant_mess.Resource.Download.{FileInfo}
use distributed_instant_mess.Redis.{text}
use distributed_instant_mess.Redis.Manager.{Manager}
use distributed_instant_mess.Redis.Files.{
  Root, Json, IsJson, running, set_file_info, get_file_info, set_down_load_info, get_download_info,
}
use distributed_instant_mess.Redis.Files.RoundTrip.{Reads, set-get}
use distributed_instant_mess.Redis.Lock.Exclusion.{
  tries, releases, System, take_turns, IsExclusive, turns-IsExclusive,
}
use distributed_instant_mess.Redis.Count.{Numerals}
use distributed_instant_mess.Redis.Count.Steps.{IsNumerals}
use distributed_instant_mess.Redis.Count.Refine.{
  increases, decreases, inits, table_after, run_changes, IsDone, run_changes-refines,
}
use distributed_instant_mess.Redis.Tests.Keys.{no_item, server, server_laws}

abbrev start : Manager server
start = record { redis = λ k. no_item; connections = 0 ∷ 1 ∷ []; b_stop = false; replies = 0 }

abbrev lock_system : System server
lock_system = record { redis = λ k. no_item; holders = [] }

ten : 0 < 10
ten = omega arith

turns-IsExclusive_example : IsExclusive server (108 ∷ []) 10 server_laws ten (
    take_turns server
      (108 ∷ [])
      10
      lock_system
      (tries (1 ∷ []) ∷ tries (2 ∷ []) ∷ releases (2 ∷ []) ∷ []))
turns-IsExclusive_example =
    turns-IsExclusive server (108 ∷ []) 10 server_laws ten
      (tries (1 ∷ []) ∷ tries (2 ∷ []) ∷ releases (2 ∷ []) ∷ []) lock_system refl

-- Numbers of one digit, and what follows the digits.
abbrev numerals : Numerals
numerals = record {
  to_string = λ n. (48 + n) ∷ [];
  stoi = λ s. elim s [ [] ↦ none | c ∷ rest ↦ some (c - 48) ];
}

numerals-IsNumerals : IsNumerals numerals
numerals-IsNumerals = record {
  stoi-to_string = λ n small. ap some (omega arith);
  not_empty = λ n. (48 + n, [], refl);
  zero_text = refl;
}

run_changes-refines_example :
    IsDone server numerals server_laws numerals-IsNumerals
      (table_after
        (λ g. 0)
        (increases 1 [] (97 ∷ []) ∷ decreases 2 [] (98 ∷ []) ∷ inits 3 [] (99 ∷ []) ∷ []))
      (run_changes server numerals start
        (increases 1 [] (97 ∷ []) ∷ decreases 2 [] (98 ∷ []) ∷ inits 3 [] (99 ∷ []) ∷ []))
run_changes-refines_example =
    run_changes-refines server numerals server_laws numerals-IsNumerals
      (increases 1 [] (97 ∷ []) ∷ decreases 2 [] (98 ∷ []) ∷ inits 3 [] (99 ∷ []) ∷ []) start
      (λ g. 0) (λ g. omega arith)
      (record {
        live = record { context = 0; others = 1 ∷ []; has_connection = refl; runs = refl };
        free = refl;
        takes = tt;
        counts = λ g. inr (refl, refl);
      })

-- A text behind its length.
abbrev measured : Text → Text
measured s = length s ∷ s

abbrev cut : Text → Text × Text
cut [] = ([], [])
cut (n ∷ s) = (take n s, drop n s)

cut-measured : (s rest : Text) → cut (length s ∷ s ++ rest) ≡ (s, rest)
cut-measured s rest = rw (take-append s rest, drop-append s rest) refl

abbrev styled : Root → Text
styled r =
    r.seq ∷ length r.file_path_str ∷ r.file_path_str
    ++ (length r.name ∷ r.name ++ (length r.total_size ∷ r.total_size ++ r.trans_size))

abbrev parse_fields : ℕ → Text × Text → Option Root
parse_fields seq (path, s) = some (record {
  file_path_str = path;
  name = (cut s).0;
  seq = seq;
  total_size = (cut (cut s).1).0;
  trans_size = (cut (cut s).1).1;
})

abbrev parse_root : Text → Option Root
parse_root [] = none
parse_root (seq ∷ s) = parse_fields seq (cut s)

abbrev json : Json
json = record {
  to_styled_string = styled;
  parse = parse_root;
  to_string = λ n. n ∷ [];
  stoll = λ s. elim s [ [] ↦ none | n ∷ rest ↦ some n ];
}

json-IsJson : IsJson json
json-IsJson = record {
  parse-styled = λ r.
      ap (parse_fields r.seq) (cut-measured r.file_path_str _)
      ∙ ap
          (λ p. some (record {
            file_path_str = r.file_path_str;
            name = p.0;
            seq = r.seq;
            total_size = (cut p.1).0;
            trans_size = (cut p.1).1;
          }))
          (cut-measured r.name _)
      ∙ ap
          (λ p. some (record {
            file_path_str = r.file_path_str;
            name = r.name;
            seq = r.seq;
            total_size = p.0;
            trans_size = p.1;
          }))
          (cut-measured r.total_size r.trans_size);
  styled_not_empty = λ r. refl;
  stoll-to_string = λ n. refl;
}

abbrev file : FileInfo Text Text
file = record { file_path = 47 ∷ []; name = 97 ∷ []; seq = 1; total_size = 9; trans_size = 4 }

set-get_example :
    Reads json server
      (λ m. get_file_info json server m (97 ∷ []))
      file
      (set_file_info json server (running json server (start.redis) 0 [] 0) (97 ∷ []) file)
    × Reads json server
        (λ m. get_download_info json server m (97 ∷ []))
        file
        (set_down_load_info json server (running json server (start.redis) 0 [] 0) (97 ∷ []) file)
set-get_example = set-get json server json-IsJson server_laws start.redis (97 ∷ []) file 0 [] 0
