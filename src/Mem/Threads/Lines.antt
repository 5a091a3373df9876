-- ===== src/Mem/Threads/Lines.antt =====
-- The lines of `pinHttpFilter` and `unpinHttpFilter` in a row, against the methods.
use mathlib.Core.Path.{fun_ext}
use dynamic_modules_examples.Base.{ℕ, ◌≡◌, refl, if◌then◌else◌, ◌==◌, arith, Bool-cases, inl, inr}
use dynamic_modules_examples.Base.Outcome.{ok, ◌>>=◌, Outcome-cases}
use dynamic_modules_examples.Mem.{
  Ptr, null, LinkedList, Heap, write, load, set_next, set_prev, MemoryManager, update,
  pin_http_filter, unpin_http_filter,
}
use dynamic_modules_examples.Mem.Pin.{check_key}
use dynamic_modules_examples.Mem.Sharding.{sharding_key}
use dynamic_modules_examples.Mem.Threads.{
  pin_next, unpin_test, unpin_test_next, line, run_lines, returned,
}

-- After `filter.prev.next = filter.next` the filter's own node is as it was, whatever its neighbours.
load_linked :
    {F : Type 0} (h h' : Heap F) (p : Ptr) (n : LinkedList F)
    → load h p ≡ ok n
    → set_next h n.prev n.next ≡ ok h'
    → load h' p ≡ ok n
unfolding set_next load write
load_linked h h' p n there linked = ground arith

module _ {C F : Type 0} (m : MemoryManager C F) (p : Ptr) where
  -- Without another thread between its lines, `pinHttpFilter` is its lines in a row, panics included.
  pub pin_http_filter-run_lines :
      (f : F)
      → pin_http_filter p m f ≡ (do
        (l, h, front) ←
            run_lines 4 p pin_next
              (write m.filters p (record { obj = f; next = null; prev = null }))
              (m.http_filter_lists (sharding_key p))
        returned l (
            ok (
              p,
              record m {
                filters = h;
                http_filter_lists = update m.http_filter_lists (sharding_key p) front;
              },
            )))
  unfolding pin_http_filter run_lines line
  pin_http_filter-run_lines f =
      let key = sharding_key p in
      let head = m.http_filter_lists key in
      let h0 : Heap F = write m.filters p (record { obj = f; next = null; prev = null }) in
      rw (check_key p) (elim (Outcome-cases (set_next h0 p head)) [
        | inl (fault, e) ↦ rw e
        | inr (h, e) ↦ rw e (elim (Bool-cases (head == null)) [
          | inl first ↦ rw first
          | inr later ↦ rw later (elim (Outcome-cases (set_prev h head p)) [
            | inl (fault, e') ↦ rw e'
            | inr (h', e') ↦ rw e'
          ])
        ])
      ])

  -- The second half of `unpinHttpFilter`, over lists that have the given front already.
  second_half :
      (h : Heap F) (front : Ptr) (lists : ℕ → Ptr) (n : LinkedList F)
      → load h p ≡ ok n
      → update m.http_filter_lists (sharding_key p) front ≡ lists
      → (let m' : MemoryManager C F = record m { filters = h; http_filter_lists = lists } in
          (if n.next == null
            then ok m'
            else do h' ← set_prev h n.next n.prev; ok (record m' { filters = h' }))
          ≡ (do
            (l, h', front') ← run_lines 2 p unpin_test_next h front
            returned l (
                ok (record m {
                  filters = h';
                  http_filter_lists = update m.http_filter_lists (sharding_key p) front';
                }))))
  unfolding run_lines line
  second_half h front lists n there same = rw there (elim (Bool-cases (n.next == null)) [
    | inl last ↦ rw (last, same)
    | inr more ↦
        rw (more, there)
          (elim (Outcome-cases (set_prev h n.next n.prev)) [
            | inl (fault, e) ↦ rw e
            | inr (h', e) ↦ rw (e, same)
          ])
  ])

  -- Without another thread between its lines, `unpinHttpFilter` is its lines in a row, panics included.
  pub unpin_http_filter-run_lines : unpin_http_filter m p ≡ (do
    (l, h, front) ← run_lines 4 p unpin_test m.filters (m.http_filter_lists (sharding_key p))
    returned l (
        ok (record m {
          filters = h;
          http_filter_lists = update m.http_filter_lists (sharding_key p) front;
        })))
  unfolding unpin_http_filter run_lines line
  unpin_http_filter-run_lines =
      let key = sharding_key p in
      rw (check_key p) (elim (Outcome-cases (load m.filters p)) [
        | inl (fault, e) ↦ rw e
        | inr (n, e) ↦ rw e (elim (Bool-cases (n.prev == null)) [
          | inl first ↦ rw (first, e) (second_half m.filters n.next _ n e refl)
          | inr later ↦ rw later (elim (Outcome-cases (set_next m.filters n.prev n.next)) [
            | inl (fault, e') ↦ rw (e', e, e')
            | inr (h', e') ↦
                rw (e', e, e')
                  (second_half h' (m.http_filter_lists key) m.http_filter_lists n
                    (load_linked m.filters h' p n e e') (fun_ext (λ k. ground arith)))
          ])
        ])
      ])
