-- ===== src/Kernel/HeapPages/FirstFit.antt =====
-- The first run of free pages, by the number of a page.
use sea_star_os.Base.{ℕ, ◌+◌, ◌≤◌, ◌<◌, ◌≡◌, arith}
use native.Mathlib.Decide.{dec_lt}

module _ (IsFree : ℕ → Type 0) where
  abbrev pub IsRun : ℕ → ℕ → Type 0
  IsRun pages b = (q : ℕ) → b ≤ q → q < b + pages → IsFree q

  -- `b` is the lowest page from `start` on at which a run of free pages begins.
  pub record IsFirstFit (start pages b : ℕ) : Type 0 where
    pub from : start ≤ b
    pub run : IsRun pages b
    pub lowest : (b' : ℕ) → start ≤ b' → b' < b → ¬ (IsRun pages b')

  -- The pages up to `p` are looked at: the last `free` of them, from `first` on, are free.
  pub record IsSearched (start pages p free first : ℕ) : Type 0 where
    pub from : start ≤ first
    pub at : first + free ≡ p
    pub short : free < pages
    pub run : (q : ℕ) → first ≤ q → q < p → IsFree q
    pub lowest : (b' : ℕ) → start ≤ b' → b' < first → ¬ (IsRun pages b')

  pub search_begins : (start pages : ℕ) → 0 < pages → IsSearched start pages start 0 start
  search_begins start pages h = record {
    from = omega arith;
    at = omega arith;
    short = h;
    run = λ q l m. absurd (omega (arith, l, m));
    lowest = λ b l m. absurd (omega (arith, l, m));
  }

  pub search_used :
      (start pages p free first : ℕ)
      → IsSearched start pages p free first
      → ¬ (IsFree p)
      → IsSearched start pages (p + 1) 0 (p + 1)
  search_used start pages p free first s used = record {
    from = omega (arith, s.from, s.at);
    at = omega arith;
    short = omega (arith, s.short);
    run = λ q l m. absurd (omega (arith, l, m));
    lowest = λ b l m run. elim (dec_lt b first) [
      | yes before ↦ s.lowest b l before run
      | no past ↦ used (run p (omega (arith, m)) (omega (arith, s.at, s.short, past)))
    ];
  }

  -- `more` free pages behind those that are looked at
  pub search_found :
      (start pages p free first more : ℕ)
      → IsSearched start pages p free first
      → ((q : ℕ) → p ≤ q → q < p + more → IsFree q)
      → pages ≤ free + more
      → IsFirstFit start pages first
  search_found start pages p free first more s all enough = record {
    from = s.from;
    run = λ q l m. elim (dec_lt q p) [
      | yes before ↦ s.run q l before
      | no past ↦ all q (omega (arith, past)) (omega (arith, m, s.at, enough))
    ];
    lowest = s.lowest;
  }

  pub search_free :
      (start pages p free first more : ℕ)
      → IsSearched start pages p free first
      → ((q : ℕ) → p ≤ q → q < p + more → IsFree q)
      → free + more < pages
      → IsSearched start pages (p + more) (free + more) first
  search_free start pages p free first more s all few = record {
    from = s.from;
    at = omega (arith, s.at);
    short = few;
    run = λ q l m. elim (dec_lt q p) [
      | yes before ↦ s.run q l before
      | no past ↦ all q (omega (arith, past)) m
    ];
    lowest = s.lowest;
  }
