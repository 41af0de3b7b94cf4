-- ===== src/Client/Sim/Collective/Gather.antt =====
-- The ranks of a collective submit one after the other, in any order.
use flume_ascend_host_bypass.Prelude.{
  ℕ, ◌+◌, ◌≤◌, ◌<◌, ◌≡◌, ◌≢◌, refl, subst, sym, ◌∙◌, true, false, none, some, List, [], ◌∷◌, length,
  get_elem?, All, ◌==◌, arith, All-map, All-zip, Numbered,
}
use flume_ascend_host_bypass.Client.Memory.{Memory, load, length-load}
use flume_ascend_host_bypass.Client.Table.{Distinct, find, erase, erase-Distinct, find-erase_self}
use flume_ascend_host_bypass.Client.Sim.{Store}
use flume_ascend_host_bypass.Client.Sim.Reduce.{Machine}
use flume_ascend_host_bypass.Client.Sim.Collective.{
  CollectiveKey, same_collective, Arrival, Pending, Share, present, complete_pending, Collectives,
  after_completion, finish, arrive, has_arrived, pending_or, share,
}
use flume_ascend_host_bypass.Client.Sim.Collective.Keys.{same_collective_refl, same_collective→eq}
use flume_ascend_host_bypass.Client.Sim.Collective.Arrivals.{
  get_elem?-set_arrived, get_elem?-set_arrived_ne, has_arrived-set_arrived_ne,
  get_elem?-has_arrived, IsPending, arrive-IsPending,
}
use flume_ascend_host_bypass.Client.Sim.Collective.Joins.{
  Joins, waiting_store, waiting_memory, waiting_length, arrival_of, arrived_with, share-Joins,
}

abbrev pub shares : Machine → List Share → Collectives → Collectives
shares machine [] s = s
shares machine (q ∷ qs) s = shares machine qs (share machine q s)

-- The terms that all ranks share.
pub record SameTerms (a b : Pending) : Type 0 where
  pub kind_same : a.kind ≡ b.kind
  pub size_same : a.rank_size ≡ b.rank_size
  pub count_same : a.count ≡ b.count
  pub type_same : a.data_type ≡ b.data_type
  pub op_same : a.reduce_op ≡ b.reduce_op
  pub input_same : a.input_bytes ≡ b.input_bytes

-- What a rank has brought stands under its number, with the bytes that its source held.
abbrev pub Stands : Memory → ℕ → Pending → ℕ → Share → Type 0
Stands m n full io q =
    (io < n)
    × (get_elem? full.arrived q.rank
        ≡ some (
            some (record {
              payload = load m (q.src.ptr + q.src_offset) q.input_bytes;
              dst = q.dst;
              dst_offset = q.dst_offset;
              io = io;
            })))

-- A collective that has come to its end: every rank is there, and the completion has run on them.
pub record Ended (machine : Machine) (key : CollectiveKey) (p : Pending) (start : Store)
    (qs : List Share) (s : Collectives) : Type 0 where
  pub full : Pending
  pub before : Store
  pub memory_same : before.memory ≡ start.memory
  pub grown : length start.ios ≤ length before.ios
  pub terms : SameTerms p full
  pub whole : length (present full.arrived) ≡ length full.arrived
  pub sized : length full.arrived ≡ full.rank_size
  pub entries : Numbered (Stands start.memory (length before.ios) full) (length start.ios) qs
  pub filled : All (λ a. length a.payload ≡ full.input_bytes) (present full.arrived)
  pub kept :
      (r : ℕ) (a : Arrival)
      → get_elem? p.arrived r ≡ some (some a)
      → get_elem? full.arrived r ≡ some (some a)
  pub freed : find same_collective key s.pendings ≡ none
  pub result : s.store ≡ after_completion full (complete_pending machine full before) before

abbrev pub Different : List Share → Type 0
Different [] = Unit {0}
Different (q ∷ qs) = All (λ x. x.rank ≢ q.rank) qs × Different qs

-- The ranks that are to come, all of those that are missing.
pub record Coming (key : CollectiveKey) (p : Pending) (qs : List Share) (s : Collectives)
    : Type 0 where
  pub known : All (λ x. pending_or (find same_collective x.key s.pendings) x ≡ p) qs
  pub joins : All (Joins p key) qs
  pub missing : All (λ x. has_arrived p.arrived x.rank ≡ false) qs
  pub different : Different qs
  pub number : p.arrivals + length qs ≡ p.rank_size
  pub distinct : Distinct same_collective s.pendings
  pub formed : IsPending p

module _ (machine : Machine) (key : CollectiveKey) (p : Pending) (q : Share) (s : Collectives) where
  next : Pending
  next = arrived_with q s.store p

  after : Collectives
  after = finish machine q next (record s { store = waiting_store q s.store })

  kept_next :
      has_arrived p.arrived q.rank ≡ false
      → (r : ℕ) (a : Arrival) → get_elem? p.arrived r ≡ some (some a)
      → get_elem? next.arrived r ≡ some (some a)
  unfolding next arrived_with arrive
  kept_next n r a e =
      get_elem?-set_arrived_ne p.arrived q.rank r (arrival_of q s.store)
        (λ y. absurd (ground (arith, n, y, get_elem?-has_arrived p.arrived r a e)))
      ∙ e

  formed_next : {qs : List Share} → Coming key p (q ∷ qs) s → IsPending next
  unfolding next arrived_with
  formed_next c =
      arrive-IsPending q (load s.store.memory (q.src.ptr + q.src_offset) q.input_bytes)
        (length s.store.ios) p c.joins.0.rank_known c.missing.0
        (length-load s.store.memory (q.src.ptr + q.src_offset) q.input_bytes
          ∙ sym c.joins.0.input_same)
        c.formed

  after_last :
      p.arrivals + 1 ≡ p.rank_size
      → after ≡ record {
        pendings = erase same_collective q.key s.pendings;
        store =
            after_completion next
              (complete_pending machine next (waiting_store q s.store))
              (waiting_store q s.store);
      }
  unfolding after finish next arrived_with arrive
  after_last e = let done : (p.arrivals + 1 == p.rank_size) ≡ true = ground (arith, e) in rw (done)

  after_first :
      p.arrivals + 1 < p.rank_size
      → after ≡ record {
        pendings = (q.key, next) ∷ erase same_collective q.key s.pendings;
        store = waiting_store q s.store;
      }
  unfolding after finish next arrived_with arrive
  after_first e =
      let more : (p.arrivals + 1 == p.rank_size) ≡ false = ground (arith, e) in rw (more)

  same_next : SameTerms p next
  unfolding next arrived_with arrive
  same_next = record {
    kind_same = refl;
    size_same = refl;
    count_same = refl;
    type_same = refl;
    op_same = refl;
    input_same = refl;
  }

  Joins-next : (x : Share) → Joins p key x → Joins next key x
  unfolding next arrived_with arrive
  Joins-next x j = record {
    key_same = j.key_same;
    kind_same = j.kind_same;
    size_same = j.size_same;
    count_same = j.count_same;
    type_same = j.type_same;
    op_same = j.op_same;
    input_same = j.input_same;
    output_same = j.output_same;
    rank_known = j.rank_known;
  }

  missing_next :
      (x : Share)
      → x.rank ≢ q.rank
      → has_arrived p.arrived x.rank ≡ false
      → has_arrived next.arrived x.rank ≡ false
  unfolding next arrived_with arrive
  missing_next x d n =
      has_arrived-set_arrived_ne p.arrived q.rank x.rank (arrival_of q s.store) d ∙ n

  known_next :
      (x : Share)
      → x.key ≡ q.key
      → pending_or
          (find same_collective x.key ((q.key, next) ∷ erase same_collective q.key s.pendings))
          x
        ≡ next
  unfolding find
  known_next x e = rw (e, same_collective_refl q.key)

  -- With a rank entered, the others are still to come.
  Coming-next :
      {y : Share} {qs : List Share}
      → Coming key p (q ∷ (y ∷ qs)) s
      → Coming key next (y ∷ qs) (record {
        pendings = (q.key, next) ∷ erase same_collective q.key s.pendings;
        store = waiting_store q s.store;
      })
  Coming-next {y} {qs} c = record {
    known = All-map (y ∷ qs) (λ x j. known_next x (j.key_same ∙ sym c.joins.0.key_same)) c.joins.1;
    joins = All-map (y ∷ qs) Joins-next c.joins.1;
    missing =
        All-map (y ∷ qs) (λ x h. missing_next x h.0 h.1)
          (All-zip _ _ (y ∷ qs) c.different.0 c.missing.1);
    different = c.different.1;
    number = unfold next arrived_with arrive in omega (arith, c.number);
    distinct = (
      find-erase_self same_collective same_collective→eq q.key s.pendings c.distinct,
      erase-Distinct same_collective q.key s.pendings c.distinct,
    );
    formed = formed_next c;
  }

  entered_now :
      q.rank < length p.arrived → get_elem? next.arrived q.rank ≡ some (some (arrival_of q s.store))
  unfolding next arrived_with arrive
  entered_now h = get_elem?-set_arrived p.arrived q.rank (arrival_of q s.store) h

  last_Ended : Coming key p (q ∷ []) s → Ended machine key p s.store (q ∷ []) after
  last_Ended c =
      let v = formed_next c in
      let e : p.arrivals + 1 ≡ p.rank_size = omega (arith, c.number) in
      subst (Ended machine key p s.store (q ∷ [])) (sym (after_last e)) (record {
        full = next;
        before = waiting_store q s.store;
        memory_same = waiting_memory q s.store;
        grown = omega (arith, waiting_length q s.store);
        terms = same_next;
        whole =
            let full_now : next.arrivals ≡ next.rank_size = unfold next arrived_with arrive in e in
            v.counted ∙ full_now ∙ sym v.sized;
        sized = v.sized;
        entries = (
          (
            omega (arith, waiting_length q s.store),
            entered_now (omega (arith, c.formed.sized, c.joins.0.rank_known)),
          ),
          tt,
        );
        filled = v.filled;
        kept = kept_next c.missing.0;
        freed =
            subst (λ k. find same_collective k (erase same_collective q.key s.pendings) ≡ none)
              c.joins.0.key_same
              (find-erase_self same_collective same_collective→eq q.key s.pendings c.distinct);
        result = refl;
      })

SameTerms-trans : (a b c : Pending) → SameTerms a b → SameTerms b c → SameTerms a c
SameTerms-trans a b c x y = record {
  kind_same = x.kind_same ∙ y.kind_same;
  size_same = x.size_same ∙ y.size_same;
  count_same = x.count_same ∙ y.count_same;
  type_same = x.type_same ∙ y.type_same;
  op_same = x.op_same ∙ y.op_same;
  input_same = x.input_same ∙ y.input_same;
}

-- The end is reached from every point on the way.
pub shares-Ended :
    (machine : Machine) (key : CollectiveKey) (q : Share) (qs : List Share) (p : Pending)
    (s : Collectives)
    → Coming key p (q ∷ qs) s
    → Ended machine key p s.store (q ∷ qs) (shares machine (q ∷ qs) s)
unfolding after next
shares-Ended machine key q [] p s c =
    subst (Ended machine key p s.store (q ∷ []))
      (sym (share-Joins machine q key p s c.known.0 c.joins.0 c.missing.0))
      (last_Ended machine key p q s c)
shares-Ended machine key q (y ∷ qs) p s c =
    let more : p.arrivals + 1 < p.rank_size = omega (arith, c.number) in
    let step =
      share-Joins machine q key p s c.known.0 c.joins.0 c.missing.0
      ∙ after_first machine key p q s more in
    let e =
      shares-Ended machine key y qs (next machine key p q s) _ (Coming-next machine key p q s c) in
    let now = entered_now machine key p q s (omega (arith, c.formed.sized, c.joins.0.rank_known)) in
    subst (λ t. Ended machine key p s.store (q ∷ (y ∷ qs)) (shares machine (y ∷ qs) t)) (sym step)
      (record {
        full = e.full;
        before = e.before;
        memory_same = e.memory_same ∙ waiting_memory q s.store;
        terms =
            SameTerms-trans p (next machine key p q s) e.full (same_next machine key p q s) e.terms;
        whole = e.whole;
        sized = e.sized;
        grown = omega (arith, e.grown, waiting_length q s.store);
        entries = (
          (
            omega (arith, e.grown, waiting_length q s.store),
            e.kept q.rank (arrival_of q s.store) now,
          ),
          subst (λ n. Numbered (Stands s.store.memory (length e.before.ios) e.full) n (y ∷ qs))
              (waiting_length q s.store)
              (subst
                (λ m.
                  Numbered (Stands m (length e.before.ios) e.full)
                    (length (waiting_store q s.store).ios) (y ∷ qs))
                (waiting_memory q s.store) e.entries),
        );
        filled = e.filled;
        kept = λ r a h. e.kept r a (kept_next machine key p q s c.missing.0 r a h);
        freed = e.freed;
        result = e.result;
      })
