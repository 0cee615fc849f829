-- ===== src/Jobs/Queue/Table.antt =====
-- How the queries of queue.py act on the table of jobs, and what `enqueue` promises.
use mnema.Prelude.{
  ℕ, ◌≡◌, refl, Bool, true, false, not, ◌&&◌, ◌||◌, none, some, List, [], ◌∷◌, ◌++◌, any, all, find,
  count, ◌==◌, if◌then◌else◌, is_some, Option-cases, inl, inr, String, str_eq, str_eq_iff, DateTime,
  arith,
}
use mnema.Security.Redaction.{Value}
use mnema.Jobs.Models.Work.{Job}
use mnema.Jobs.Queue.{new_job, enqueue, precedes, earliest, update_where}

-- The primary key: no two rows have one id.
abbrev pub has_unique_ids : List Job → Bool
has_unique_ids [] = true
has_unique_ids (j ∷ jobs) = not (any (λ k. k.id == j.id) jobs) && has_unique_ids jobs

find-append_none :
    (p : Job → Bool) (xs : List Job) (x : Job)
    → find p xs ≡ none
    → p x ≡ true
    → find p (xs ++ x ∷ []) ≡ some x
find-append_none p [] x h e = rw e
find-append_none p (y ∷ xs) x h e = ground (arith, find-append_none p xs x)

abbrev pub has_key : String → Job → Bool
has_key key j = str_eq j.idempotency_key key

-- A second request with the same key, whatever else it carries, gives back the first job and leaves
-- the table as the first request left it.
enqueue_twice :
    (id id' : ℕ) (now now' : DateTime) (jobs : List Job) (kind kind' adapter adapter' : String)
    (payload payload' : Value) (key : String) (limit limit' : ℕ)
    → let first = enqueue id now jobs kind adapter payload key limit in
      enqueue id' now' first.1 kind' adapter' payload' key limit' ≡ first
unfolding enqueue new_job
enqueue_twice id id' now now' jobs kind kind' adapter adapter' payload payload' key limit limit' =
    let job : Job = new_job id now kind adapter payload key limit in
    elim (Option-cases (find (has_key key) jobs)) [
      | inl missing ↦
          rw (missing, enqueue)
            (rw
              (
                find-append_none (has_key key) jobs job missing ((str_eq_iff key key).1 refl),
                enqueue,
              )
              (rw (missing, enqueue)))
      | inr (j, found) ↦ rw (found, enqueue) (rw (found, enqueue) (rw (found, enqueue)))
    ]

pub enqueue-find :
    (id : ℕ) (now : DateTime) (jobs : List Job) (kind adapter : String) (payload : Value)
    (key : String) (limit : ℕ)
    → is_some (find (has_key key) (enqueue id now jobs kind adapter payload key limit).1) ≡ true
unfolding enqueue new_job
enqueue-find id now jobs kind adapter payload key limit =
    elim (Option-cases (find (has_key key) jobs)) [
      | inr (j, found) ↦ ground arith
      | inl missing ↦
          let job : Job = new_job id now kind adapter payload key limit in
          ground
            (arith, find-append_none (has_key key) jobs job missing ((str_eq_iff key key).1 refl))
    ]

-- The row that an ordered query returns passes its test.
pub earliest-passes :
    (p : Job → Bool) (jobs : List Job) {c : Job} → earliest p jobs ≡ some c → p c ≡ true
unfolding earliest
earliest-passes p [] h = cc
earliest-passes p (j ∷ jobs) {c} h = ground (arith, earliest-passes p jobs {c = c})

precedes_trans : (a b c : Job) → precedes a b ≡ true → precedes b c ≡ true → precedes a c ≡ true
unfolding precedes
precedes_trans a b c h k = ground arith

precedes_refl : (a : Job) → precedes a a ≡ true
unfolding precedes
precedes_refl a = ground arith

precedes_total : (a b : Job) → precedes a b ≡ false → precedes b a ≡ true
unfolding precedes
precedes_total a b h = ground arith

abbrev pub precedes_all : (Job → Bool) → Job → List Job → Bool
precedes_all p c = all (λ k. not (p k) || precedes c k)

precedes_all_mono :
    (p : Job → Bool) (a b : Job) (jobs : List Job)
    → precedes a b ≡ true
    → precedes_all p b jobs ≡ true
    → precedes_all p a jobs ≡ true
precedes_all_mono p a b [] h k = refl
precedes_all_mono p a b (j ∷ jobs) h k =
    ground (arith, precedes_all_mono p a b jobs h, precedes_trans a b j)

precedes_all-none :
    (p : Job → Bool) (a : Job) (jobs : List Job)
    → earliest p jobs ≡ none
    → precedes_all p a jobs ≡ true
unfolding earliest
precedes_all-none p a [] h = refl
precedes_all-none p a (j ∷ jobs) h = ground (arith, precedes_all-none p a jobs)

-- No row that passes the test comes before it.
pub earliest-precedes :
    (p : Job → Bool) (jobs : List Job) {c : Job}
    → earliest p jobs ≡ some c
    → precedes_all p c jobs ≡ true
unfolding earliest
earliest-precedes p [] h = cc
earliest-precedes p (j ∷ jobs) {c} h = elim (Option-cases (earliest p jobs)) [
  | inl nothing ↦ ground (arith, precedes_all-none p c jobs nothing, precedes_refl c)
  | inr (k, e) ↦ ground (
    arith,
    earliest-precedes p jobs e,
    precedes_all_mono p j k jobs,
    precedes_refl j,
    precedes_total j k,
  )
]

find-any :
    (id : ℕ) (jobs : List Job) {c : Job}
    → find (λ k. k.id == id) jobs ≡ some c
    → any (λ k. k.id == id) jobs ≡ true
find-any id [] h = cc
find-any id (j ∷ jobs) {c} h = ground (arith, find-any id jobs {c = c})

-- With unique ids the returned row is the one that its id finds.
pub find-earliest :
    (p : Job → Bool) (jobs : List Job) {c : Job}
    → has_unique_ids jobs ≡ true
    → earliest p jobs ≡ some c
    → find (λ k. k.id == c.id) jobs ≡ some c
unfolding earliest
find-earliest p [] u h = cc
find-earliest p (j ∷ jobs) {c} u h =
    ground (arith, find-earliest p jobs {c = c}, find-any c.id jobs {c = c})

-- An update that keeps ids commutes with a lookup by id.
pub find-update_where :
    (id : ℕ) (p : Job → Bool) (f : Job → Job) (jobs : List Job) {c : Job}
    → ((j : Job) → (f j).id ≡ j.id)
    → find (λ k. k.id == id) jobs ≡ some c
    → find (λ k. k.id == id) (update_where p f jobs) ≡ some (if p c then f c else c)
find-update_where id p f [] same h = cc
find-update_where id p f (j ∷ jobs) {c} same h =
    ground (arith, find-update_where id p f jobs {c = c} same, same j)

-- An update whose test no row passes changes nothing.
pub update_where_none :
    (p : Job → Bool) (f : Job → Job) (jobs : List Job)
    → count p jobs ≡ 0
    → update_where p f jobs ≡ jobs
update_where_none p f [] h = refl
update_where_none p f (j ∷ jobs) h = ground (arith, update_where_none p f jobs)

-- An update whose result fails the test leaves no row that passes it.
pub count-update_where :
    (p : Job → Bool) (f : Job → Job) (jobs : List Job)
    → ((j : Job) → p (f j) ≡ false)
    → count p (update_where p f jobs) ≡ 0
count-update_where p f [] h = refl
count-update_where p f (j ∷ jobs) h = ground (arith, count-update_where p f jobs h, h j)
