-- ===== src/Runtime/OwnerProof/Processes.antt =====
-- Which processes the code takes for gone, and what the systems asked about them promise.
use outright.Base.{
  ℕ, suc, ◌≡◌, ◌≢◌, ◌⊎◌, inl, inr, refl, ap, ◌∙◌, Bool, true, false, Option, none, some, String,
  string_eq, List, [], ◌∷◌, ◌++◌, length, get_elem?, contains, nat_eq, arith, Bool-cases,
}
use outright.Runtime.OwnerProof.{
  Platform, platform_beq, World, StatText, Signal, owner_process_gone, last_close, is_zombie,
  is_stat_gone, is_no_such_process,
}

-- What is true when the proof is asked for: the boot that runs, which processes run, and whether a
-- process of the owner's tree does.
pub record Facts : Type 0 where
  pub boot : String
  pub runs : ℕ → Bool
  pub has_tree : Bool

-- The first text is the part of a file of `/proc` up to the name of the process, in parentheses; the
-- rest holds no parenthesis that closes.
pub record IsStat (units : List ℕ) (state : ℕ) : Type 0 where
  pub front : List ℕ
  pub rest : List ℕ
  pub written : units ≡ front ++ 41 ∷ 32 ∷ state ∷ rest
  pub closed : contains (state ∷ rest) 41 ≡ false

-- What the operating systems answer about processes: Linux has a file for each process with its state,
-- Z once it has ended; and a signal finds every process that runs.
pub record IsTruthful (platform : Platform) (w : World) (facts : Facts) : Type 0 where
  pub listed :
      (pid : ℕ)
      → platform ≡ Platform.linux
      → w.proc_stat pid ≡ StatText.no_file
      → facts.runs pid ≡ false
  pub state :
      (pid : ℕ) (units : List ℕ)
      → platform ≡ Platform.linux
      → w.proc_stat pid ≡ StatText.contents units
      → (letter : ℕ) × IsStat units letter × ((facts.runs pid ≡ false) ⊎ (letter ≢ 90))
  pub found : (pid : ℕ) → w.signal pid ≡ Signal.no_such_process → facts.runs pid ≡ false

none_closed : (units : List ℕ) → contains units 41 ≡ false → last_close units ≡ none
unfolding last_close
none_closed [] h = refl
none_closed (unit ∷ units) h = ground (arith, h, none_closed units)

last_close_front :
    (front rest : List ℕ)
    → contains rest 41 ≡ false
    → last_close (front ++ 41 ∷ rest) ≡ some (length front)
unfolding last_close
last_close_front [] rest h = rw (none_closed rest h) refl
last_close_front (unit ∷ front) rest h = rw (last_close_front front rest h) refl

get_elem?-front :
    (front : List ℕ) (close blank letter : ℕ) (rest : List ℕ)
    → get_elem? (front ++ close ∷ blank ∷ letter ∷ rest) (suc (suc (length front))) ≡ some letter
get_elem?-front [] close blank letter rest = refl
get_elem?-front (unit ∷ front) close blank letter rest =
    get_elem?-front front close blank letter rest

-- The state that the code reads is the letter.
zombie_letter :
    (units : List ℕ) (letter : ℕ) → IsStat units letter → is_zombie units ≡ true → letter ≡ 90
unfolding is_zombie
zombie_letter units letter stat h =
    let after : contains (32 ∷ letter ∷ stat.rest) 41 ≡ false = ground (arith, stat.closed) in
    let closing : last_close units ≡ some (length stat.front) =
      ap last_close stat.written ∙ last_close_front stat.front (32 ∷ letter ∷ stat.rest) after in
    let here : get_elem? units (suc (suc (length stat.front))) ≡ some letter =
      ap (λ l. get_elem? l (suc (suc (length stat.front)))) stat.written
      ∙ get_elem?-front stat.front 41 32 letter stat.rest in
    ground (arith, closing, here, h)

platform_beq-linux :
    (platform : Platform) → platform_beq platform Platform.linux ≡ true → platform ≡ Platform.linux
unfolding platform_beq
platform_beq-linux Platform.linux h = refl
platform_beq-linux Platform.darwin h = ground (arith, h)
platform_beq-linux Platform.win32 h = ground (arith, h)

-- A process that the code takes for gone does not run.
stat_gone :
    (platform : Platform) (w : World) (facts : Facts) (pid : ℕ) (answer : StatText)
    → IsTruthful platform w facts
    → platform ≡ Platform.linux
    → w.proc_stat pid ≡ answer
    → is_stat_gone answer ≡ true
    → facts.runs pid ≡ false
stat_gone platform w facts pid StatText.no_file truthful e read h = truthful.listed pid e read
stat_gone platform w facts pid StatText.unread truthful e read h = ground (arith, h)
stat_gone platform w facts pid (StatText.contents units) truthful e read h =
    let (letter, stat, ended) = truthful.state pid units e read in
    ground (arith, ended, zombie_letter units letter stat h)

signal_gone :
    (platform : Platform) (w : World) (facts : Facts) (pid : ℕ) (answer : Signal)
    → IsTruthful platform w facts
    → w.signal pid ≡ answer
    → is_no_such_process answer ≡ true
    → facts.runs pid ≡ false
signal_gone platform w facts pid Signal.no_such_process truthful sent h = truthful.found pid sent
signal_gone platform w facts pid Signal.delivered truthful sent h = ground (arith, h)
signal_gone platform w facts pid Signal.refused truthful sent h = ground (arith, h)

pub owner_gone :
    (platform : Platform) (w : World) (facts : Facts) (owner : Option ℕ)
    → IsTruthful platform w facts
    → owner_process_gone platform w owner ≡ true
    → (pid : ℕ) × (owner ≡ some pid) × (facts.runs pid ≡ false)
unfolding owner_process_gone
owner_gone platform w facts none truthful h = ground (arith, h)
owner_gone platform w facts (some pid) truthful h = (
  pid,
  refl,
  elim (Bool-cases (is_no_such_process (w.signal pid))) [
    | inl gone ↦ signal_gone platform w facts pid (w.signal pid) truthful refl gone
    | inr alive ↦
        let on_linux : platform_beq platform Platform.linux ≡ true = ground (arith, h, alive) in
        stat_gone platform w facts pid (w.proc_stat pid) truthful
          (platform_beq-linux platform on_linux) refl (ground (arith, h, alive))
  ],
)
