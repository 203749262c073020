-- ===== src/Critbit/Hash.antt =====
-- The hash table that uses the tree: hcb_lookup, hcb_deref and hcb_cleaner. Each function holds the
-- lock where the code does; what runs between two of them is another operation of the table.
use varnish.Prelude.{
  ℕ, ◌+◌, ◌-◌, ◌%◌, Bool, true, false, not, ltb, ◌==◌, ◌||◌, Option, none, some, List, [], ◌∷◌,
  ◌++◌, get_or, set,
}
use varnish.Prelude.Checked.{Checked, panic, ok, assert, ◌>>=◌, ◌>>◌}
use varnish.Prelude.Maps.{write}
use varnish.Critbit.{Tree, node, y, Root, insert, delete}

-- The tree, the fields of the objheads, the list `laylow`, and the three counters of VSL_stats.
-- `idle` says whether both queues of an objhead, `objcs` and `waitinglist`, are empty.
pub record Hash : Type 0 where
  pub root : Root
  pub digest : ℕ → List ℕ
  pub refcnt : ℕ → ℕ
  pub idle : ℕ → Bool
  pub laylow : List ℕ
  pub hcb_nolock : ℕ
  pub hcb_insert : ℕ
  pub hcb_lock : ℕ

unfoldable pub deref : Hash → ℕ → Checked (ℕ × Hash)
unfolding delete
deref h oh =
    assert (ltb 0 (h.refcnt oh))
    >> (elim (h.refcnt oh == 1) [
      | false ↦ ok h
      | true ↦ delete h.root oh (h.digest oh) >>= (λ root.
          assert (h.idle oh)
          >> ok (record h {
            root = root;
            digest = write h.digest oh (set (h.digest oh) 0 0);
            laylow = h.laylow ++ (oh ∷ []);
          }))
    ])
    >>= (λ h1. ok (1, record h1 { refcnt = write h1.refcnt oh (h1.refcnt oh - 1) }))

-- The first try of hcb_lookup, before it takes hcb_mtx.
unfoldable pub lookup_nolock : Hash → ℕ → Checked (Option ℕ × Hash)
unfolding insert
lookup_nolock h noh = insert h.digest h.root noh false >>= (λ (found, root). elim found [
  | none ↦ ok (none, record h { root = root })
  | some oh ↦ assert (not (oh == noh)) >> (elim (h.refcnt oh == 0) [
    | true ↦ ok (none, record h { root = root })
    | false ↦ ok (
      some oh,
      record h {
        root = root;
        refcnt = write h.refcnt oh (h.refcnt oh + 1);
        hcb_nolock = h.hcb_nolock + 1;
      },
    )
  ])
])

-- The second try, with hcb_mtx held.
unfoldable pub lookup_lock : Hash → ℕ → Checked (ℕ × Hash)
unfolding insert
lookup_lock h noh =
    assert (h.refcnt noh == 1) >> insert h.digest h.root noh true >>= (λ (found, root). elim found [
      | none ↦ panic
      | some oh ↦ assert (ltb 0 (h.refcnt oh)) >> (elim (oh == noh) [
        | true ↦ ok (oh, record h { root = root; hcb_insert = h.hcb_insert + 1 })
        | false ↦ ok (
          oh,
          record h {
            root = root;
            refcnt = write h.refcnt oh (h.refcnt oh + 1);
            hcb_lock = h.hcb_lock + 1;
          },
        )
      ])
    ])

-- hcb_lookup, where no other thread comes between its two tries
unfoldable pub lookup : Hash → ℕ → Checked (ℕ × Hash)
unfolding lookup_nolock lookup_lock
lookup h noh =
    lookup_nolock h noh
    >>= (λ (found, h1). elim found [ none ↦ lookup_lock h1 noh | some oh ↦ ok (oh, h1) ])

-- `y->leaf[0] || y->leaf[1]` of the y of an objhead: the tree uses it.
unfoldable pub y_used : Tree → ℕ → Bool
y_used (node oh) x = false
y_used (y k l r) x = k.owner == x || (y_used l x || y_used r x)

abbrev pub used : Option Tree → ℕ → Bool
used none x = false
used (some t) x = y_used t x

abbrev pub cool_duration : ℕ
cool_duration = 60

-- One round of hcb_cleaner over the rest of `laylow`: the digests, the objheads that stay on the
-- list, and those that go to HSH_DeleteObjHead. The first byte of a digest counts the rounds.
unfoldable pub sweep_list :
    (ℕ → ℕ) → (ℕ → Bool) → List ℕ → (ℕ → List ℕ) → Checked ((ℕ → List ℕ) × List ℕ × List ℕ)
sweep_list refcnt used [] digest = ok (digest, [], [])
sweep_list refcnt used (oh ∷ rest) digest = assert (refcnt oh == 0) >> (elim (used oh) [
  | true ↦ sweep_list refcnt used rest digest >>= (λ (d, kept, gone). ok (d, oh ∷ kept, gone))
  | false ↦
      let age = (get_or (digest oh) 0 0 + 1) % 256 in
      sweep_list refcnt used rest (write digest oh (set (digest oh) 0 age)) >>= (λ (d, kept, gone).
        ok (elim (ltb cool_duration age) [
          | true ↦ (d, kept, oh ∷ gone)
          | false ↦ (d, oh ∷ kept, gone)
        ]))
])

unfoldable pub sweep : Hash → Checked (List ℕ × Hash)
unfolding sweep_list y_used
sweep h =
    sweep_list h.refcnt (used h.root.origo) h.laylow h.digest
    >>= (λ (d, kept, gone). ok (gone, record h { digest = d; laylow = kept }))
