-- ===== src/Exceptions/Expiry/Stuck.antt =====
-- The ticks after one that gets no connection.
use tpsr_v.Prelude.{◌≡◌, refl, ap, ◌∙◌, true, false, List, [], ◌∷◌, arith}
use tpsr_v.Exceptions.Expiry.{ExpiryEnv, Worker, tick}

-- The ticks of the interval, one after the other.
unfoldable pub ticks : List ExpiryEnv → Worker → Worker
ticks [] w = w
ticks (env ∷ envs) w = ticks envs (tick env w)

tick-running : (env : ExpiryEnv) (w : Worker) → w.is_running ≡ true → tick env w ≡ w
unfolding tick
tick-running env w r = ground arith

ticks-running : (envs : List ExpiryEnv) (w : Worker) → w.is_running ≡ true → ticks envs w ≡ w
unfolding ticks
ticks-running [] w r = refl
ticks-running (env ∷ envs) w r = ap (ticks envs) (tick-running env w r) ∙ ticks-running envs w r

tick-disconnected :
    (env : ExpiryEnv) (w : Worker)
    → w.is_running ≡ false
    → env.connects ≡ false
    → tick env w ≡ record w { is_running = true }
unfolding tick
tick-disconnected env w r c = ground arith

-- If one tick of an idle worker gets no connection, no later tick changes anything: the tables stay as
-- they were, whatever connections the later ticks would get.
pub ticks-disconnected :
    (env : ExpiryEnv) (envs : List ExpiryEnv) (w : Worker)
    → w.is_running ≡ false
    → env.connects ≡ false
    → ticks (env ∷ envs) w ≡ record w { is_running = true }
unfolding ticks
ticks-disconnected env envs w r c =
    ap (ticks envs) (tick-disconnected env w r c)
    ∙ ticks-running envs (record w { is_running = true }) refl
