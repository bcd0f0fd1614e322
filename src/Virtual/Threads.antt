-- ===== src/Virtual/Threads.antt =====
-- `delete this` on a Thread: the destructor of its own class is ~Thread() (src/Thread.cpp), if its
-- wait ends.
use qobject_mimic.Base.{ℕ, none, some, Bool, true, false, ◌≡◌, arith}
use qobject_mimic.World.{World, Code, Object}
use qobject_mimic.Thread.{wait, quit, clear_thread, destroy_thread, finish_destroy}
use qobject_mimic.Virtual.{delete_this}

-- Where the wait of ~Thread() ends and the destructor of the object at `t` is the rest of ~Thread(),
-- `delete this` there is the destruction of the Thread.
pub delete_this-destroy_thread :
    (elapse : World → World) (code : Code) (native caller t : ℕ) (ob : Object) (w v : World)
    (done : Bool)
    → w.heap t ≡ some ob
    → ob.timer ≡ none
    → wait elapse false t (quit t w) ≡ some (v, done)
    → code.destructor t w ≡ clear_thread native t v
    → destroy_thread elapse code native caller t w ≡ some (delete_this code caller t w)
unfolding destroy_thread finish_destroy delete_this
delete_this-destroy_thread elapse code native caller t ob w v done e plain ended own = ground arith

-- The wait of a Thread that is deleted before it has finished, by itself or by a thread for which
-- nothing finishes it, does not end.
pub destroy_thread_waits :
    (elapse : World → World) (code : Code) (native caller t : ℕ) (w : World)
    → ((quit t w).threads t).joinable ≡ true
    → ((quit t w).threads t).finished ≡ false
    → ((elapse (quit t w)).threads t).finished ≡ false
    → destroy_thread elapse code native caller t w ≡ none
unfolding destroy_thread wait
destroy_thread_waits elapse code native caller t w j f stuck = ground arith
