-- ===== src/Komet/Records/Lines.antt =====
-- Which lines `parseTraceJsonl` of src/komet/trace.ts takes, and which one it rejects.
use stellar_debugger.Prelude.{
  ℕ, ◌+◌, ◌≡◌, refl, sym, ap, ◌∙◌, String, true, false, Option, none, some, List, [], ◌∷◌, ◌++◌,
  map,
}
use stellar_debugger.Lines.{trim}
use stellar_debugger.Bytes.{Result, ok, fail, ◌>>=◌}
use stellar_debugger.ScVal.{ScVal}
use stellar_debugger.Komet.{Json}
use stellar_debugger.Komet.Records.{
  Row, Checked, invalid_json, TraceParseError, at_line, check_record, members_of, parsed_record,
  is_blank, parse_line, lines_loop, split_lines, parse_trace_jsonl,
}

module _ (text : Json → String) (trusted : String → Json → ScVal)
    (parse_json : List ℕ → Option Json) where
  -- The lines from index `i` on that are not blank, trimmed, each with its index.
  abbrev pub filled : List (List ℕ) → ℕ → List (List ℕ × ℕ)
  filled [] i = []
  filled (raw ∷ raws) i = elim (trim raw) [
    | [] ↦ filled raws (i + 1)
    | ◌∷◌ c line ↦ (c ∷ line, i) ∷ filled raws (i + 1)
  ]

  abbrev pub read : List ℕ × ℕ → Result TraceParseError Row
  read l = parse_line text trusted parse_json l.0 l.1

  -- Each line gives its record, in order.
  abbrev pub AreRead : List (List ℕ × ℕ) → List Row → Type 0
  AreRead ls rows = map read ls ≡ map ok rows

  -- The result is the records of all the lines, or the error of the first line that is rejected,
  -- under its number from 1 on.
  abbrev pub IsOutcome : List (List ℕ × ℕ) → Result TraceParseError (List Row) → Type 0
  IsOutcome ls (ok rows) = AreRead ls rows
  IsOutcome ls (fail e) =
      (before after : List (List ℕ × ℕ)) × (l : List ℕ × ℕ) × (rows : List Row) × (ls
        ≡ before ++ l ∷ after)
      × AreRead before rows
      × (read l ≡ fail e)
      × (e.line ≡ l.1 + 1)

  read-line : (l : List ℕ × ℕ) (e : TraceParseError) → read l ≡ fail e → e.line ≡ l.1 + 1
  unfolding parse_line
  read-line l e h = go (parse_json l.0) h
    where
      line_of :
          (n : ℕ) (f : TraceParseError)
          → Path (Result TraceParseError Row) (fail f) (fail e)
          → f.line ≡ n
          → e.line ≡ n
      line_of n f q r = sym (ap (λ x. x.line) (same q)) ∙ r
        where
          same : Path (Result TraceParseError Row) (fail f) (fail e) → f ≡ e
          same p = cc

      at : (n : ℕ) (m : Checked Row) → at_line n m ≡ fail e → e.line ≡ n
      at n (ok r) q = cc
      at n (fail x) q = line_of n (record { line = n; reason = x }) q refl

      go : (o : Option Json) → parsed_record text trusted o (l.1 + 1) ≡ fail e → e.line ≡ l.1 + 1
      go none q = line_of (l.1 + 1) (record { line = l.1 + 1; reason = invalid_json }) q refl
      go (some value) q = at (l.1 + 1) (check_record text trusted (members_of value)) q

  IsOutcome-cons :
      (l : List ℕ × ℕ) (row : Row) (ls : List (List ℕ × ℕ)) (m : Result TraceParseError (List Row))
      → read l ≡ ok row
      → IsOutcome ls m
      → IsOutcome (l ∷ ls) (m >>= λ rows. ok (row ∷ rows))
  IsOutcome-cons l row ls (ok rows) h o = cc (h, o)
  IsOutcome-cons l row ls (fail e) h o =
      let (before, after, bad, rows, split, good, failed, at) = o in
      (l ∷ before, after, bad, row ∷ rows, ap (λ x. l ∷ x) split, cc (h, good), failed, at)

  lines_loop-IsOutcome :
      (raws : List (List ℕ)) (i : ℕ)
      → IsOutcome (filled raws i) (lines_loop text trusted parse_json raws i)
  unfolding lines_loop is_blank
  lines_loop-IsOutcome [] i = refl
  lines_loop-IsOutcome (raw ∷ raws) i = go (trim raw) (lines_loop-IsOutcome raws (i + 1))
    where
      by_line :
          (l : List ℕ × ℕ) (m : Result TraceParseError Row)
          → read l ≡ m
          → IsOutcome (filled raws (i + 1)) (lines_loop text trusted parse_json raws (i + 1))
          → IsOutcome
              (l ∷ filled raws (i + 1))
              (m >>= λ r. lines_loop text trusted parse_json raws (i + 1) >>= λ rs. ok (r ∷ rs))
      by_line l (ok r) e rest =
          IsOutcome-cons l r (filled raws (i + 1)) (lines_loop text trusted parse_json raws (i + 1))
            e rest
      by_line l (fail x) e rest = ([], filled raws (i + 1), l, [], refl, refl, e, read-line l x e)

      go :
          (line : List ℕ)
          → IsOutcome (filled raws (i + 1)) (lines_loop text trusted parse_json raws (i + 1))
          → IsOutcome
              (elim line [
                | [] ↦ filled raws (i + 1)
                | ◌∷◌ c cs ↦ (c ∷ cs, i) ∷ filled raws (i + 1)
              ])
              (elim (is_blank line) [
                | true ↦ lines_loop text trusted parse_json raws (i + 1)
                | false ↦ parse_line text trusted parse_json line i >>= λ r.
                    lines_loop text trusted parse_json raws (i + 1) >>= λ rs. ok (r ∷ rs)
              ])
      go [] rest = rest
      go (c ∷ line) rest = by_line (c ∷ line, i) (read (c ∷ line, i)) refl rest

  -- A trace text is read line by line: either the records are those of the lines that are not
  -- blank, one for each and in their order; or a line that is not blank is rejected, the lines
  -- before it that are not blank are accepted, and the error is that line's, under its number in
  -- the text, blank lines counted.
  pub parse_trace_jsonl-IsOutcome :
      (jsonl : List ℕ)
      → IsOutcome (filled (split_lines jsonl) 0) (parse_trace_jsonl text trusted parse_json jsonl)
  unfolding parse_trace_jsonl
  parse_trace_jsonl-IsOutcome jsonl = lines_loop-IsOutcome (split_lines jsonl) 0
