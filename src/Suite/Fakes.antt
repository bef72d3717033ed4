-- ===== src/Suite/Fakes.antt =====
-- The helpers and doubles of tst/unit/cpp/RemSvcServiceImplTest.cc.
use rem_svc.Base.{
  ℕ, zero, suc, List, [], ◌∷◌, ◌++◌, Option, none, some, Bool, true, false, ◌||◌, ◌&&◌, Bytes,
  length, drop, get_elem?, leb, ◌==◌, if◌then◌else◌, ◌≡◌, refl, arith,
}
use rem_svc.Base.Int.{ℤ, pos}
use rem_svc.Proto.{RemCmdMsg, RemResMsg, Status, empty_cmd, empty_res}
use rem_svc.Policy.{RegexEngine, Policy, make_policy}
use rem_svc.Service.{State, CmdRunner, Outcome, rem_cmd}
use rem_svc.Service.Interface.{CmdStream, process_on, Delivers}

-- `s.find(p) != npos`
abbrev begins_with : Bytes → Bytes → Bool
begins_with [] s = true
begins_with (c ∷ p) [] = false
begins_with (c ∷ p) (d ∷ s) = c == d && begins_with p s

abbrev pub contains : Bytes → Bytes → Bool
contains p [] = begins_with p []
contains p (c ∷ s) = begins_with p (c ∷ s) || contains p s

pub contains-append : (p s t : Bytes) → contains p t ≡ true → contains p (s ++ t) ≡ true
contains-append p [] t h = h
contains-append p (c ∷ s) t h = ground (arith, contains-append p s t h)

-- `std::string(n, c)`
unfoldable pub copies : ℕ → ℕ → Bytes
copies zero c = []
copies (suc n) c = c ∷ copies n c

pub length-copies : (n c : ℕ) → length (copies n c) ≡ n
unfolding copies
length-copies zero c = refl
length-copies (suc n) c = omega (arith, length-copies n c)

-- `makeFakeRunner`
abbrev pub make_fake_runner : {W : Type 0} → Bytes → Bytes → ℤ → CmdRunner W
make_fake_runner out err rc w cmd cmdtyp cmdusr = (w, record { rc = rc; out = out; err = err })

-- The spies: each keeps one argument of its last call, and succeeds with no output.
abbrev pub silent : Outcome
silent = record { rc = pos 0; out = []; err = [] }

abbrev pub cmd_spy : CmdRunner Bytes
cmd_spy captured cmd cmdtyp cmdusr = (cmd, silent)

abbrev pub cmdtyp_spy : CmdRunner ℤ
cmdtyp_spy captured cmd cmdtyp cmdusr = (cmdtyp, silent)

abbrev pub cmdusr_spy : CmdRunner Bytes
cmdusr_spy captured cmd cmdtyp cmdusr = (cmdusr, silent)

abbrev pub call_counter : CmdRunner ℕ
call_counter calls cmd cmdtyp cmdusr = (suc calls, silent)

-- A message of which only the command is set.
abbrev pub command : Bytes → RemCmdMsg
command cmd = record empty_cmd { cmd = cmd }

-- `makeReq`
abbrev pub make_req : Bytes → ℤ → Bytes → RemCmdMsg
make_req cmd tid hsh = record empty_cmd { cmd = cmd; tid = tid; hsh = hsh }

-- A service that was just constructed.
abbrev pub fresh : {W : Type 0} → W → State W
fresh w = record { commands_executed = 0; world = w }

-- One call of `RemCmd` on a service with these lists.
abbrev pub call_on :
    {W : Type 0}
    → (engine : RegexEngine) → CmdRunner W
    → List Bytes
    → List Bytes
    → State W
    → RemCmdMsg
    → State W × Status × RemResMsg
call_on engine runner allow deny s req =
    rem_cmd (make_policy engine allow deny) runner s req empty_res

-- `FakeCmdStream`
pub record FakeCmdStream : Type 0 where
  pub requests : List RemCmdMsg
  pub responses : List RemResMsg
  pub idx : ℕ

abbrev pub fake_cmd_stream : CmdStream FakeCmdStream
fake_cmd_stream = record {
  read = λ f.
      if leb (length f.requests) f.idx
      then (f, none)
      else (record f { idx = suc f.idx }, get_elem? f.requests f.idx);
  write = λ f msg. (record f { responses = f.responses ++ msg ∷ [] }, true);
}

abbrev pub playback : List RemCmdMsg → FakeCmdStream
playback requests = record { requests = requests; responses = []; idx = 0 }

drop-nil {ℓ} : {A : Type ℓ} (i : ℕ) (xs : List A) → drop i xs ≡ [] → leb (length xs) i ≡ true
drop-nil zero [] h = ground arith
drop-nil zero (x ∷ xs) h = cc
drop-nil (suc i) [] h = ground arith
drop-nil (suc i) (x ∷ xs) h = ground (arith, drop-nil i xs h)

drop-cons {ℓ} :
    {A : Type ℓ} (i : ℕ) (xs : List A) (y : A) (ys : List A)
    → drop i xs ≡ y ∷ ys
    → (leb (length xs) i ≡ false) × (get_elem? xs i ≡ some y) × (drop (suc i) xs ≡ ys)
drop-cons zero [] y ys h = cc
drop-cons zero (x ∷ xs) y ys h = (ground arith, cc, cc)
drop-cons (suc i) [] y ys h = cc
drop-cons (suc i) (x ∷ xs) y ys h =
    let (more, found, rest) = drop-cons i xs y ys h in (ground arith, found, rest)

module _ {engine : RegexEngine} {W : Type 0} (policy : Policy engine) (runner : CmdRunner W) where
  -- The double delivers what is left of its requests.
  pub fake_cmd_stream-Delivers :
      (reqs : List RemCmdMsg) (f : FakeCmdStream)
      → drop f.idx f.requests ≡ reqs
      → Delivers policy runner fake_cmd_stream (λ g. g.responses) reqs f
  fake_cmd_stream-Delivers [] f h = rw (drop-nil f.idx f.requests h) (refl, refl)
  fake_cmd_stream-Delivers (req ∷ reqs) f h =
      let (more, found, rest) = drop-cons f.idx f.requests req reqs h in
      rw (more, found) (refl, refl, λ res. (refl, fake_cmd_stream-Delivers reqs _ rest))

-- A result is there, and it is as expected.
abbrev pub Returns {ℓ} : {A : Type ℓ} → (A → Type 0) → Option A → Type 0
Returns P none = ⊥
Returns P (some a) = P a

-- `processStream` of a new service with these lists, on the double of a stream with these requests.
abbrev pub stream_on :
    {W : Type 0}
    → (engine : RegexEngine) → CmdRunner W
    → List Bytes
    → List Bytes
    → W
    → List RemCmdMsg
    → Option (State W × Status × FakeCmdStream)
stream_on engine runner allow deny w reqs =
    process_on (make_policy engine allow deny) runner fake_cmd_stream (suc (length reqs)) (fresh w)
      (playback reqs)
