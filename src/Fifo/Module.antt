-- ===== src/Fifo/Module.antt =====
-- Loading, unloading, opening and releasing the device of globalfifo/globalfifo.c.
use simplefs.Base.{
  ℕ, ◌≡◌, ◌⊎◌, inl, inr, refl, Bool, true, false, Option, none, some, replicate, if◌then◌else◌,
}
use simplefs.Fifo.Device.{Dev, globalfifo_init, globalfifo_size}

-- Whether the device number is registered and the device is in the kernel's table, and the memory of
-- the device, `none` where it is not allocated.
pub record FifoModule : Type 0 where
  pub region : Bool
  pub cdev : Bool
  pub globalfifo_devp : Option Dev

-- What loading returns: 0, the error of `register_chrdev_region`, or -ENOMEM.
pub data Load : Type 0 where
  load_ok load_enomem : Load
  load_error : ℕ → Load

-- The zeros of `memset`: the semaphore is not yet initialised.
abbrev pub zero_dev : Dev
zero_dev = record { current_len = 0; mem = replicate globalfifo_size 0; sem = 0 }

-- An error of `cdev_add` is printed, and loading goes on.
unfoldable pub globalfifo_setup_cdev : Bool → FifoModule → FifoModule
globalfifo_setup_cdev added m = record m { cdev = added }

-- `refused`: the error of `register_chrdev_region`; `allocated` and `added`: whether `kmalloc` and
-- `cdev_add` succeed. The device is in the table before its semaphore is initialised.
unfoldable pub init_module : Option ℕ → Bool → Bool → FifoModule → FifoModule × Load
unfolding globalfifo_setup_cdev globalfifo_init
init_module (some e) allocated added m = (m, load_error e)
init_module none allocated added m =
    let m = record m { region = true } in
    if allocated
    then (let m = record m { globalfifo_devp = some zero_dev } in
        let m = globalfifo_setup_cdev added m in
        (record m { globalfifo_devp = some globalfifo_init }, load_ok))
    else (record m { region = false }, load_enomem)

unfoldable pub exit_module : FifoModule → FifoModule
exit_module m =
    let m = record m { cdev = false } in
    let m = record m { globalfifo_devp = none } in record m { region = false }

-- `filp->private_data` of a file that is opened, and the 0 that is returned.
unfoldable pub globalfifo_open : FifoModule → Option Dev × ℕ
globalfifo_open m = (m.globalfifo_devp, 0)

unfoldable pub globalfifo_release : Option Dev → Option Dev × ℕ
globalfifo_release private_data = (private_data, 0)

abbrev unloaded : FifoModule
unloaded = record { region = false; cdev = false; globalfifo_devp = none }

-- A load that fails leaves nothing, and neither does one that succeeds once it is unloaded; but it
-- succeeds also where the device could not be added.
exit_module-init_module :
    (refused : Option ℕ) (allocated added : Bool)
    → let (u, ret) = init_module refused allocated added unloaded in
      (exit_module u ≡ unloaded)
      × ((u ≡ unloaded)
          ⊎ ((ret ≡ load_ok) × (u.cdev ≡ added) × ((globalfifo_open u).0 ≡ some globalfifo_init)))
unfolding init_module exit_module globalfifo_open
exit_module-init_module (some e) allocated added = (refl, inl refl)
exit_module-init_module none false added = (refl, inl refl)
exit_module-init_module none true added = (refl, inr (refl, refl, refl))
