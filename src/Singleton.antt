-- ===== src/Singleton.antt =====
-- common/singleton.h: class Singleton as its pointer `singleton_`. `none` as a result is an assertion that
-- fails.
use pluto_server.Prelude.{Option, none, some}

module _ {A : Type 0} where
  -- The constructor, which asserts that there is no other.
  unfoldable pub construct : Option A → A → Option (Option A)
  construct none this = some (some this)
  construct (some other) this = none

  -- The destructor.
  unfoldable pub destruct : Option A → Option (Option A)
  destruct none = none
  destruct (some this) = some none

  -- `getSingleton` asserts that there is one.
  unfoldable pub get_singleton : Option A → Option A
  get_singleton none = none
  get_singleton (some this) = some this

  -- `getSingletonPtr`, whose result may be NULL.
  unfoldable pub get_singleton_ptr : Option A → Option A
  get_singleton_ptr singleton = singleton
