-- ===== src/Ledger/Rollback.antt =====
-- Rollback in LedgerImage.ts: what a contract call leaves behind when it ends.
use stellar_debugger.Prelude.{
  ℕ, ◌+◌, ◌≡◌, refl, sym, ap, ◌∙◌, String, Bool, true, false, Option, some, List, [], ◌∷◌, ◌++◌,
  length, arith, append-nil, append_assoc, if◌then◌else◌,
}
use stellar_debugger.ScVal.{ScVal}
use stellar_debugger.Ledger.{
  TraceAddress, StorageEntry, TraceEvent, call_contract, end_wasm, LedgerHostObject,
  LedgerCallFrame, World, Scan, commit, save_world, drop_saved_world, saved_world, mark_cursor,
}
use stellar_debugger.Ledger.Events.{
  apply_snapshot, apply_mutation, entry_world, close_call, drop_last, world_after,
}
use stellar_debugger.Ledger.Image.{scan_record, scan_loop}
use mathlib.Core.Path.{subst}
use stellar_debugger.Ledger.Quiet.{
  IsBalanced, done, quiet, call, SameCalls, SameCalls-refl, SameCalls-trans, quiet-SameCalls,
}

drop_last-snoc :
    (stack : List LedgerCallFrame) (f : LedgerCallFrame) → drop_last (stack ++ f ∷ []) ≡ stack
unfolding drop_last
drop_last-snoc [] f = refl
drop_last-snoc (g ∷ []) f = refl
drop_last-snoc (g ∷ h ∷ rest) f = ap (λ r. g ∷ r) (drop_last-snoc (h ∷ rest) f)

scan_loop-append :
    (xs ys : List (Option TraceEvent)) (i : ℕ) (s : Scan)
    → scan_loop (xs ++ ys) i s ≡ scan_loop ys (i + length xs) (scan_loop xs i s)
unfolding scan_loop
scan_loop-append [] ys i s = ap (λ k. scan_loop ys k s) (omega arith)
scan_loop-append (x ∷ xs) ys i s =
    scan_loop-append xs ys (i + 1) (scan_record x i s)
    ∙ ap (λ k. scan_loop ys k (scan_loop xs (i + 1) (scan_record x i s))) (omega arith)

-- What a call's end finds: the world saved at its start, and its frame on the stack.
record IsOpen (s : Scan) (w : World) (t : Scan) : Type 0 where
  saved : t.saved_worlds ≡ w ∷ s.saved_worlds
  frame : LedgerCallFrame
  stack : t.current.call_stack ≡ s.current.call_stack ++ frame ∷ []
  objects : List LedgerHostObject
  grown : t.current.host_objects ≡ s.current.host_objects ++ objects

-- The scan after the call: the open calls of before, and a world that depends on the success.
record IsClosed (s : Scan) (world : World) (t : Scan) : Type 0 where
  same : SameCalls s t
  world_is : t.current.world ≡ world

close_call-stack :
    (b : Bool) (stack front : List LedgerCallFrame) (f : LedgerCallFrame) (o : Option World)
    (t : Scan)
    → stack ≡ front ++ f ∷ []
    → ((close_call b stack o t).current.call_stack ≡ front)
      × ((close_call b stack o t).current.world ≡ world_after b o t.current.world)
      × ((close_call b stack o t).current.host_objects ≡ t.current.host_objects)
      × ((close_call b stack o t).saved_worlds ≡ t.saved_worlds)
unfolding close_call
close_call-stack b [] [] f o t e = cc
close_call-stack b [] (g ∷ front) f o t e = cc
close_call-stack b (g ∷ stack) front f o t e =
    unfold commit in (ap drop_last e ∙ drop_last-snoc front f, refl, refl, refl)

end-IsClosed :
    (s t : Scan) (w : World) (i : ℕ) (b : Bool) (d : ℕ) (r : Option ScVal)
    → IsOpen s w t
    → IsClosed s (world_after b (some w) t.current.world) (scan_record (some (end_wasm b d r)) i t)
unfolding scan_record mark_cursor apply_snapshot apply_mutation
end-IsClosed s t w i b d r h = record {
  same = record {
    saved = closed.3 ∙ ap rest_of h.saved;
    stack = closed.0;
    objects = h.objects;
    grown = closed.2 ∙ h.grown;
  };
  world_is =
      closed.1
      ∙ ap (λ ws. world_after b (saved_world ws) t.current.world) h.saved
      ∙ unfold saved_world in refl;
}
  where
    rest_of : List World → List World
    rest_of ws = elim ws [ [] ↦ [] | x ∷ rest ↦ rest ]

    marked : Scan
    marked = mark_cursor (record t { ledger_seen = true })

    closed :
        ((close_call b t.current.call_stack
            (saved_world t.saved_worlds)
            (drop_saved_world marked)).current.call_stack
          ≡ s.current.call_stack)
        × ((close_call b t.current.call_stack
              (saved_world t.saved_worlds)
              (drop_saved_world marked)).current.world
            ≡ world_after b (saved_world t.saved_worlds) t.current.world)
        × ((close_call b t.current.call_stack
              (saved_world t.saved_worlds)
              (drop_saved_world marked)).current.host_objects
            ≡ t.current.host_objects)
        × ((close_call b t.current.call_stack
              (saved_world t.saved_worlds)
              (drop_saved_world marked)).saved_worlds
            ≡ rest_of t.saved_worlds)
    closed =
        unfold drop_saved_world in
        close_call-stack b t.current.call_stack s.current.call_stack h.frame
          (saved_world t.saved_worlds) (drop_saved_world marked) h.stack

module _ (from to : TraceAddress) (function : String) (args : List ScVal) (depth : ℕ)
    (storage : List StorageEntry) where
  abbrev opening : TraceEvent
  opening = call_contract from to function args depth storage

  call_contract-IsOpen :
      (i : ℕ) (s : Scan)
      → IsOpen s (entry_world to storage s.current.world) (scan_record (some opening) i s)
  unfolding scan_record mark_cursor apply_snapshot apply_mutation save_world commit
  call_contract-IsOpen i s = record {
    saved = refl;
    frame = record {
      from = from;
      to = to;
      function = function;
      args = args;
      depth = depth;
      index = i;
    };
    stack = refl;
    objects = [];
    grown = sym (append-nil s.current.host_objects);
  }

IsOpen-SameCalls : {s t u : Scan} {w : World} → IsOpen s w t → SameCalls t u → IsOpen s w u
IsOpen-SameCalls {s} h g = record {
  saved = g.saved ∙ h.saved;
  frame = h.frame;
  stack = g.stack ∙ h.stack;
  objects = h.objects ++ g.objects;
  grown =
      g.grown
      ∙ ap (λ l. l ++ g.objects) h.grown
      ∙ append_assoc s.current.host_objects h.objects g.objects;
}

module _ (from to : TraceAddress) (function : String) (args : List ScVal) (depth : ℕ)
    (storage : List StorageEntry) (success : Bool) (end_depth : ℕ) (result : Option ScVal)
    (opened : List (Option TraceEvent)) where
  abbrev ending : Option TraceEvent
  ending = some (end_wasm success end_depth result)

  -- The records of one call, from its opening to its end, and what follows.
  abbrev pub whole_call : List (Option TraceEvent) → List (Option TraceEvent)
  whole_call closed =
      some (call_contract from to function args depth storage) ∷ (opened ++ (ending ∷ closed))

  -- The scan inside the call, just before its end.
  abbrev pub inside : ℕ → Scan → Scan
  inside i s =
      scan_loop opened (i + 1)
        (scan_record (some (call_contract from to function args depth storage)) i s)

  call-eq :
      (closed : List (Option TraceEvent)) (i : ℕ) (s : Scan)
      → scan_loop (whole_call closed) i s
        ≡ scan_loop closed
            (i + 1 + length opened + 1)
            (scan_record ending (i + 1 + length opened) (inside i s))
  unfolding scan_loop
  call-eq closed i s =
      scan_loop-append opened (ending ∷ closed) (i + 1)
        (scan_record (some (call_contract from to function args depth storage)) i s)

  call-eq_nil :
      (i : ℕ) (s : Scan)
      → scan_loop (whole_call []) i s ≡ scan_record ending (i + 1 + length opened) (inside i s)
  unfolding scan_loop
  call-eq_nil i s = call-eq [] i s

  call-IsClosed :
      ((i : ℕ) (s : Scan) → SameCalls s (scan_loop opened i s))
      → (i : ℕ) (s : Scan)
      → IsClosed s
          (world_after success
            (some (entry_world to storage s.current.world))
            (inside i s).current.world)
          (scan_record ending (i + 1 + length opened) (inside i s))
  call-IsClosed body i s =
      end-IsClosed s (inside i s) (entry_world to storage s.current.world) (i + 1 + length opened)
        success end_depth result
        (IsOpen-SameCalls (call_contract-IsOpen from to function args depth storage i s)
          (body (i + 1) _))

-- A balanced stretch leaves the open calls and the saved worlds as they were, and only adds host
-- objects.
IsBalanced-SameCalls :
    {events : List (Option TraceEvent)}
    → IsBalanced events
    → (i : ℕ) (s : Scan) → SameCalls s (scan_loop events i s)
unfolding scan_loop
IsBalanced-SameCalls done i s = SameCalls-refl s
IsBalanced-SameCalls (quiet {event = event} q rest) i s =
    SameCalls-trans (quiet-SameCalls event i s q)
      (IsBalanced-SameCalls rest (i + 1) (scan_record event i s))
IsBalanced-SameCalls
      (call {opened = opened} {closed = closed} from to function args depth storage b d r hb hc e) i
      s =
    let body = IsBalanced-SameCalls hb in
    let c = call-IsClosed from to function args depth storage b d r opened body i s in
    subst (λ events. SameCalls s (scan_loop events i s)) (sym e)
      (subst (SameCalls s)
        (sym (call-eq from to function args depth storage b d r opened closed i s))
        (SameCalls-trans c.same (IsBalanced-SameCalls hc _ _)))

-- A call that fails, whatever balanced records it spans, restores the world of its entry, with the
-- callee's storage baseline merged in; a call that succeeds keeps the world that its records made.
-- Either way the open calls and the saved worlds are those of before, and the host objects of
-- before stay in front of the new ones.
pub call_rollback :
    (from to : TraceAddress) (function : String) (args : List ScVal) (depth : ℕ)
    (storage : List StorageEntry) (success : Bool) (end_depth : ℕ) (result : Option ScVal)
    (opened : List (Option TraceEvent)) (i : ℕ) (s : Scan)
    → IsBalanced opened
    → SameCalls s (
        scan_loop
          (whole_call from to function args depth storage success end_depth result opened [])
          i
          s)
      × ((scan_loop
            (whole_call from to function args depth storage success end_depth result opened [])
            i
            s).current.world
          ≡ (if success
              then (inside from to function args depth storage success end_depth result opened i
                  s).current.world
              else entry_world to storage s.current.world))
call_rollback from to function args depth storage success end_depth result opened i s hb =
    let c =
      call-IsClosed from to function args depth storage success end_depth result opened
        (IsBalanced-SameCalls hb) i s in
    let e = call-eq_nil from to function args depth storage success end_depth result opened i s in
    (subst (SameCalls s) (sym e) c.same, ap (λ t. t.current.world) e ∙ c.world_is ∙ chosen success)
  where
    chosen :
        (b : Bool)
        → world_after b
            (some (entry_world to storage s.current.world))
            (inside from to function args depth storage success end_depth result opened i
              s).current.world
          ≡ (if b
              then (inside from to function args depth storage success end_depth result opened i
                  s).current.world
              else entry_world to storage s.current.world)
    chosen true = unfold world_after in refl
    chosen false = unfold world_after in refl
