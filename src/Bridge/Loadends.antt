-- ===== src/Bridge/Loadends.antt =====
-- That a `BridgeXHR` tells its end once.
use log_agent.Prelude.{
  ℕ, suc, ◌+◌, ◌≤◌, Bool, true, false, List, [], ◌∷◌, ◌++◌, none, some, Text, nat_eq, if◌then◌else◌,
  ◌≡◌, refl, arith, ap, ◌∙◌, sym, append-nil, append_assoc,
}
use log_agent.Bridge.Xhr.{Fired, Xhr, Heard, concat, on_end, hear, sent_xhr, hear_all}

abbrev pub loadends : List Fired → ℕ
loadends [] = 0
loadends (Fired.progress n ∷ fired) = loadends fired
loadends (Fired.error ∷ fired) = loadends fired
loadends (Fired.load ∷ fired) = loadends fired
loadends (Fired.aborted ∷ fired) = loadends fired
loadends (Fired.loadend ∷ fired) = suc (loadends fired)

-- How often a result was told: a load, an error or an abort.
abbrev pub results : List Fired → ℕ
results [] = 0
results (Fired.progress n ∷ fired) = results fired
results (Fired.error ∷ fired) = suc (results fired)
results (Fired.load ∷ fired) = suc (results fired)
results (Fired.aborted ∷ fired) = suc (results fired)
results (Fired.loadend ∷ fired) = results fired

abbrev pub loads : List Fired → ℕ
loads [] = 0
loads (Fired.progress n ∷ fired) = loads fired
loads (Fired.error ∷ fired) = loads fired
loads (Fired.load ∷ fired) = suc (loads fired)
loads (Fired.aborted ∷ fired) = loads fired
loads (Fired.loadend ∷ fired) = loads fired

loadends-append : (xs ys : List Fired) → loadends (xs ++ ys) ≡ loadends xs + loadends ys
loadends-append [] ys = omega arith
loadends-append (Fired.progress n ∷ xs) ys = loadends-append xs ys
loadends-append (Fired.error ∷ xs) ys = loadends-append xs ys
loadends-append (Fired.load ∷ xs) ys = loadends-append xs ys
loadends-append (Fired.aborted ∷ xs) ys = loadends-append xs ys
loadends-append (Fired.loadend ∷ xs) ys = omega (arith, loadends-append xs ys)

results-append : (xs ys : List Fired) → results (xs ++ ys) ≡ results xs + results ys
results-append [] ys = omega arith
results-append (Fired.progress n ∷ xs) ys = results-append xs ys
results-append (Fired.error ∷ xs) ys = omega (arith, results-append xs ys)
results-append (Fired.load ∷ xs) ys = omega (arith, results-append xs ys)
results-append (Fired.aborted ∷ xs) ys = omega (arith, results-append xs ys)
results-append (Fired.loadend ∷ xs) ys = results-append xs ys

loads-append : (xs ys : List Fired) → loads (xs ++ ys) ≡ loads xs + loads ys
loads-append [] ys = omega arith
loads-append (Fired.progress n ∷ xs) ys = loads-append xs ys
loads-append (Fired.error ∷ xs) ys = loads-append xs ys
loads-append (Fired.load ∷ xs) ys = omega (arith, loads-append xs ys)
loads-append (Fired.aborted ∷ xs) ys = loads-append xs ys
loads-append (Fired.loadend ∷ xs) ys = loads-append xs ys

-- The chunks that come while the request is under way.
abbrev pub heard_chunks : List Heard → List Text
heard_chunks [] = []
heard_chunks (Heard.head status ∷ heard) = heard_chunks heard
heard_chunks (Heard.chunk bytes ∷ heard) = bytes ∷ heard_chunks heard
heard_chunks (Heard.end e ∷ heard) = []
heard_chunks (Heard.sent n ∷ heard) = heard_chunks heard
heard_chunks (Heard.start_failed ∷ heard) = []
heard_chunks (Heard.abort ∷ heard) = []

module _ (decode : Text → Text) where
  -- The request is under way or its end was told, once and with one result; after a load the
  -- response is the decoded text of the chunks that are kept.
  pub record IsXhr (x : Xhr) : Type 0 where
    pub one_end : loadends x.fired + (if x.in_calls then 1 else 0) ≡ 1
    pub one_result : results x.fired ≡ loadends x.fired
    pub loaded : 1 ≤ loads x.fired → (x.ready_state ≡ 4) × (x.response ≡ decode (concat x.chunks))
    pub no_load : x.in_calls ≡ true → loads x.fired ≡ 0

  abbrev xhr : ℕ → ℕ → Text → Bool → Bool → List Text → List Fired → Xhr
  xhr ready_state status response has_id in_calls chunks fired = record {
    ready_state = ready_state;
    status = status;
    response = response;
    has_id = has_id;
    in_calls = in_calls;
    chunks = chunks;
    fired = fired;
  }

  -- An end that is told without a load.
  told :
      (k s : ℕ) (r : Text) (b d : Bool) (cs : List Text) (f more : List Fired)
      → IsXhr (xhr k s r b true cs f)
      → loadends more ≡ 1
      → results more ≡ 1
      → loads more ≡ 0
      → IsXhr (xhr k s r d false cs (f ++ more))
  told k s r b d cs f more h e g l = record {
    one_end = omega (arith, h.one_end, loadends-append f more, e);
    one_result = omega (arith, h.one_result, loadends-append f more, results-append f more, e, g);
    loaded = λ n. absurd (omega (arith, n, loads-append f more, l, h.no_load refl));
    no_load = λ n. absurd (ground (arith, n));
  }

  hear-IsXhr :
      (e : Heard) (k s : ℕ) (r : Text) (b i : Bool) (cs : List Text) (f : List Fired)
      → IsXhr (xhr k s r b i cs f)
      → IsXhr (hear decode e (xhr k s r b i cs f))
  unfolding hear on_end
  hear-IsXhr (Heard.head status) k s r b false cs f h = h
  hear-IsXhr (Heard.head status) k s r b true cs f h = record {
    one_end = h.one_end;
    one_result = h.one_result;
    loaded = h.loaded;
    no_load = h.no_load;
  }
  hear-IsXhr (Heard.chunk bytes) k s r b false cs f h = h
  hear-IsXhr (Heard.chunk bytes) k s r b true cs f h = record {
    one_end = h.one_end;
    one_result = h.one_result;
    loaded = λ n. absurd (omega (arith, n, h.no_load refl));
    no_load = h.no_load;
  }
  hear-IsXhr (Heard.end e) k s r b false cs f h = h
  hear-IsXhr (Heard.end (some e)) k s r b true cs f h =
      told k s r b false cs f (Fired.error ∷ Fired.loadend ∷ []) h refl refl refl
  hear-IsXhr (Heard.end none) k s r b true cs f h = record {
    one_end = omega (arith, h.one_end, loadends-append f (Fired.load ∷ Fired.loadend ∷ []));
    one_result = omega (
      arith,
      h.one_result,
      loadends-append f (Fired.load ∷ Fired.loadend ∷ []),
      results-append f (Fired.load ∷ Fired.loadend ∷ []),
    );
    loaded = λ n. (refl, refl);
    no_load = λ n. absurd (ground (arith, n));
  }
  hear-IsXhr (Heard.sent n) k s r b i cs f h = record {
    one_end = omega (arith, h.one_end, loadends-append f (Fired.progress n ∷ []));
    one_result = omega (
      arith,
      h.one_result,
      loadends-append f (Fired.progress n ∷ []),
      results-append f (Fired.progress n ∷ []),
    );
    loaded = λ m. h.loaded (omega (arith, m, loads-append f (Fired.progress n ∷ [])));
    no_load = λ m. omega (arith, loads-append f (Fired.progress n ∷ []), h.no_load m);
  }
  hear-IsXhr Heard.start_failed k s r b false cs f h = h
  hear-IsXhr Heard.start_failed k s r b true cs f h =
      told k s r b b cs f (Fired.error ∷ Fired.loadend ∷ []) h refl refl refl
  hear-IsXhr Heard.abort k s r false i cs f h = h
  hear-IsXhr Heard.abort k s r true false cs f h = h
  hear-IsXhr Heard.abort k s r true true cs f h =
      told k s r true false cs f (Fired.aborted ∷ Fired.loadend ∷ []) h refl refl refl

  hear_all_kept : (heard : List Heard) (x : Xhr) → IsXhr x → IsXhr (hear_all decode heard x)
  unfolding hear_all
  hear_all_kept [] x h = h
  hear_all_kept (e ∷ heard) x h =
      hear_all_kept heard (hear decode e x)
        (hear-IsXhr e x.ready_state x.status x.response x.has_id x.in_calls x.chunks x.fired h)

  kept_chunks :
      (heard : List Heard) (k s : ℕ) (r : Text) (b : Bool) (cs : List Text) (f : List Fired)
      → (hear_all decode heard (xhr k s r b false cs f)).chunks ≡ cs
  unfolding hear_all hear
  kept_chunks [] k s r b cs f = refl
  kept_chunks (Heard.head status ∷ heard) k s r b cs f = kept_chunks heard k s r b cs f
  kept_chunks (Heard.chunk bytes ∷ heard) k s r b cs f = kept_chunks heard k s r b cs f
  kept_chunks (Heard.end e ∷ heard) k s r b cs f = kept_chunks heard k s r b cs f
  kept_chunks (Heard.sent n ∷ heard) k s r b cs f =
      kept_chunks heard k s r b cs (f ++ (Fired.progress n ∷ []))
  kept_chunks (Heard.start_failed ∷ heard) k s r b cs f = kept_chunks heard k s r b cs f
  kept_chunks (Heard.abort ∷ heard) k s r true cs f = kept_chunks heard k s r true cs f
  kept_chunks (Heard.abort ∷ heard) k s r false cs f = kept_chunks heard k s r false cs f

  all_chunks :
      (heard : List Heard) (k s : ℕ) (r : Text) (cs : List Text) (f : List Fired)
      → (hear_all decode heard (xhr k s r true true cs f)).chunks ≡ cs ++ heard_chunks heard
  unfolding hear_all hear on_end
  all_chunks [] k s r cs f = sym (append-nil cs)
  all_chunks (Heard.head status ∷ heard) k s r cs f = all_chunks heard k status r cs f
  all_chunks (Heard.chunk bytes ∷ heard) k s r cs f =
      all_chunks heard k s r (cs ++ (bytes ∷ [])) f
      ∙ append_assoc cs (bytes ∷ []) (heard_chunks heard)
  all_chunks (Heard.end none ∷ heard) k s r cs f =
      kept_chunks heard 4 s (decode (concat cs)) false cs (f ++ (Fired.load ∷ Fired.loadend ∷ []))
      ∙ sym (append-nil cs)
  all_chunks (Heard.end (some e) ∷ heard) k s r cs f =
      kept_chunks heard k s r false cs (f ++ (Fired.error ∷ Fired.loadend ∷ []))
      ∙ sym (append-nil cs)
  all_chunks (Heard.sent n ∷ heard) k s r cs f =
      all_chunks heard k s r cs (f ++ (Fired.progress n ∷ []))
  all_chunks (Heard.start_failed ∷ heard) k s r cs f =
      kept_chunks heard k s r true cs (f ++ (Fired.error ∷ Fired.loadend ∷ []))
      ∙ sym (append-nil cs)
  all_chunks (Heard.abort ∷ heard) k s r cs f =
      kept_chunks heard k s r false cs (f ++ (Fired.aborted ∷ Fired.loadend ∷ []))
      ∙ sym (append-nil cs)

  -- Whatever the channel, the sending and `abort` do to a request that was sent, its end is told at
  -- most once, exactly once when it is no longer in the table, and with exactly one of load, error
  -- and abort; when it was loaded, the response is the decoded text of all the chunks that came
  -- before the first end, failure of the start or `abort`.
  pub hear_all-IsXhr :
      (heard : List Heard)
      → let x = hear_all decode heard sent_xhr in
        IsXhr x × (1 ≤ loads x.fired → x.response ≡ decode (concat (heard_chunks heard)))
  hear_all-IsXhr heard =
      let good = hear_all_kept heard sent_xhr (record {
        one_end = refl;
        one_result = refl;
        loaded = λ n. absurd (omega (arith, n));
        no_load = λ n. refl;
      }) in
      (
        good,
        λ n.
            (good.loaded n).1
            ∙ ap (λ chunks. decode (concat chunks)) (all_chunks heard 1 0 [] [] []),
      )
