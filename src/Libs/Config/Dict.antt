-- ===== src/Libs/Config/Dict.antt =====
-- A printed configuration, read back.
use mathlib.Core.List.{append_assoc, append-nil}
use ucx_py.Prelude.{
  ℕ, ◌≡◌, refl, ap, ◌∙◌, sym, Bool, true, false, not, ◌&&◌, ◌||◌, List, [], ◌∷◌, ◌++◌, ◌==◌,
  if◌then◌else◌, All, arith, inl, inr, Bool-cases, drop,
}
use ucx_py.Exceptions.{Exn, ok, err}
use ucx_py.Libs.Config.{
  Text, Options, text_eq, prepend, split, is_break, lines_from, put, pair_of, parse_line,
  parse_lines, ucx_config_to_dict,
}

-- No code point passes the test.
abbrev pub clean : (ℕ → Bool) → Text → Bool
clean bad [] = true
clean bad (c ∷ cs) = not (bad c) && clean bad cs

clean-append : (bad : ℕ → Bool) (s t : Text) → clean bad (s ++ t) ≡ (clean bad s && clean bad t)
clean-append bad [] t = refl
clean-append bad (c ∷ s) t = ground (arith, clean-append bad s t)

clean-weaken :
    (bad worse : ℕ → Bool) (s : Text)
    → ((c : ℕ) → worse c ≡ false → bad c ≡ false)
    → clean worse s ≡ true
    → clean bad s ≡ true
clean-weaken bad worse [] w h = refl
clean-weaken bad worse (c ∷ s) w h = ground (arith, clean-weaken bad worse s w, w c)

-- A line before a line feed.
lines_from-line :
    (line rest : Text)
    → clean is_break line ≡ true
    → lines_from false (line ++ 10 ∷ rest) ≡ line ∷ lines_from false rest
unfolding lines_from
lines_from-line [] rest h = refl
lines_from-line (c ∷ line) rest h = ground (arith, lines_from-line line rest)

abbrev pub is_equals : ℕ → Bool
is_equals c = c == 61

split-none : (v : Text) → clean is_equals v ≡ true → split 61 v ≡ v ∷ []
unfolding split
split-none [] h = refl
split-none (c ∷ v) h = ground (arith, split-none v)

split-first : (k v : Text) → clean is_equals k ≡ true → split 61 (k ++ 61 ∷ v) ≡ k ∷ split 61 v
unfolding split
split-first [] v h = refl
split-first (c ∷ k) v h = ground (arith, split-first k v)

abbrev several : List Text → Bool
several [] = false
several (x ∷ []) = false
several (x ∷ y ∷ xs) = true

several-prepend : (c : ℕ) (parts : List Text) → several (prepend c parts) ≡ several parts
several-prepend c [] = refl
several-prepend c (x ∷ []) = refl
several-prepend c (x ∷ y ∷ xs) = refl

split-some : (v : Text) → several ([] ∷ split 61 v) ≡ true
unfolding split
split-some [] = refl
split-some (c ∷ v) = some_lem (c == 61) (split 61 v)
  where
    some_lem :
        (b : Bool) (parts : List Text)
        → several ([] ∷ (if b then [] ∷ parts else prepend c parts)) ≡ true
    some_lem true parts = refl
    some_lem false [] = refl
    some_lem false (x ∷ parts) = refl

split-several : (v : Text) → clean is_equals v ≡ false → several (split 61 v) ≡ true
unfolding split
split-several [] h = ground arith
split-several (c ∷ v) h =
    ground (arith, split-several v, split-some v, several-prepend c (split 61 v))

pair_of-several :
    (k : Text) (parts : List Text)
    → several parts ≡ true
    → pair_of (k ∷ parts) ≡ err Exn.value_error
unfolding pair_of
pair_of-several k [] h = ground arith
pair_of-several k (x ∷ []) h = ground arith
pair_of-several k (x ∷ y ∷ xs) h = refl

parse_line_lem :
    (k v : Text)
    → clean is_equals k ≡ true
    → parse_line (k ++ 61 ∷ v)
      ≡ (if clean is_equals v then ok (drop 4 k, v) else err Exn.value_error)
unfolding parse_line pair_of
parse_line_lem k v h = elim (Bool-cases (clean is_equals v)) [
  | inl yes_clean ↦ rw (parse_line, split-first k v h, split-none v yes_clean, yes_clean)
  | inr unclean ↦
      rw (parse_line, split-first k v h, unclean)
        (pair_of-several k (split 61 v) (split-several v unclean))
]

-- `UCX_KEY=value`, and the text of the lines.
abbrev pub line_of : Text → Text → Text
line_of k v = (85 ∷ 67 ∷ 88 ∷ 95 ∷ k) ++ 61 ∷ v

abbrev pub print_config : Options → Text
print_config [] = []
print_config ((k, v) ∷ d) = line_of k v ++ 10 ∷ print_config d

-- A name has no end of line and no "=", a value no end of line.
abbrev pub Printable : Text × Text → Type 0
Printable (k, v) =
    (clean is_equals k ≡ true) × (clean is_break k ≡ true) × (clean is_break v ≡ true)

abbrev pub has_key : Text → Options → Bool
has_key k [] = false
has_key k ((k', v) ∷ d) = text_eq k k' || has_key k d

-- No name is one of those before it.
abbrev pub Fresh : Options → Options → Type 0
Fresh before [] = Unit
Fresh before ((k, v) ∷ d) = (has_key k before ≡ false) × Fresh (before ++ (k, v) ∷ []) d

put-fresh : (k v : Text) (d : Options) → has_key k d ≡ false → put k v d ≡ d ++ (k, v) ∷ []
unfolding put
put-fresh k v [] h = refl
put-fresh k v ((k', v') ∷ d) h = ground (arith, put-fresh k v d)

-- Do all values do without "="?
abbrev pub plain : Options → Bool
plain [] = true
plain ((k, v) ∷ d) = clean is_equals v && plain d

read_lem :
    (ret d : Options)
    → All Printable d
    → Fresh ret d
    → parse_lines ret (lines_from false (print_config d))
      ≡ (if plain d then ok (ret ++ d) else err Exn.value_error)
unfolding parse_lines lines_from
read_lem ret [] p f = ap ok (sym (append-nil ret))
read_lem ret ((k, v) ∷ d) ((ke, kb, vb), p) (f, fs) =
    let line : lines_from false (line_of k v ++ 10 ∷ print_config d)
        ≡ line_of k v ∷ lines_from false (print_config d) =
      lines_from-line (line_of k v) (print_config d) (rw (clean-append) (ground arith)) in
    let rest : parse_lines (put k v ret) (lines_from false (print_config d))
        ≡ (if plain d then ok (ret ++ ((k, v) ∷ d)) else err Exn.value_error) =
      ap (λ r. parse_lines r (lines_from false (print_config d))) (put-fresh k v ret f)
      ∙ read_lem (ret ++ (k, v) ∷ []) d p fs
      ∙ ap (λ o. if plain d then ok o else err Exn.value_error)
          (append_assoc ret ((k, v) ∷ []) d) in
    elim (Bool-cases (clean is_equals v)) [
      | inl c ↦ rw (line, parse_line_lem, c) rest
      | inr c ↦ rw (line, parse_line_lem, c)
    ]

-- A printed configuration with different names, without ends of lines in names and values and
-- without "=" in names, is read back as it was, if no value has "=" in it; if one has, ValueError
-- is raised.
pub ucx_config_to_dict-print_config :
    (d : Options)
    → All Printable d
    → Fresh [] d
    → ucx_config_to_dict (print_config d) ≡ (if plain d then ok d else err Exn.value_error)
unfolding ucx_config_to_dict
ucx_config_to_dict-print_config d p f = read_lem [] d p f
