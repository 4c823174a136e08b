-- ===== src/Translations/Es/Onboard.antt =====
-- The Spanish texts of the header and the wizard, lines 1471 to 1571 of frontend/src/i18n/translations.ts.
use lokinode.Translations.Table.{Table}
use mathlib.Core.List.{[], ◌∷◌}

unfoldable pub texts : Table
texts =
    ("header.help", "Ayuda")
    ∷ ("header.settings", "Configuración")
    ∷ ("header.minimize", "Minimizar")
    ∷ ("header.close", "Cerrar")
    ∷ ("header.update_available", "Actualización disponible: {{version}}")
    ∷ ("node.errors.restart_failed", "Error al reiniciar")
    ∷ ("node.errors.stop_failed", "Error al detener")
    ∷ ("node.errors.start_timeout", "Tiempo de inicio agotado — revisa los registros.")
    ∷ ("node.errors.lock_timeout_title", "Bloqueo agotado")
    ∷ (
      "node.errors.lock_timeout_desc",
      "El daemon no volvió al estado bloqueado. Revisa los registros o detén el nodo.",
    )
    ∷ (
      "node.errors.another_instance", "Otra ventana de Lokinode ya está abierta. Ciérrala primero.",
    )
    ∷ (
      "node.errors.port_conflict",
      "Conflicto de puertos — otro proceso está usando el mismo puerto.",
    )
    ∷ ("node.errors.rate_limited", "Demasiados intentos — espera un momento.")
    ∷ ("node.errors.daemon_not_ready", "El daemon no está listo.")
    ∷ ("language.label", "Idioma")
    ∷ ("onboard.back", "Atrás")
    ∷ ("onboard.cancel", "Cancelar")
    ∷ ("onboard.next", "Continuar")
    ∷ ("onboard.step_x_of_y", "Paso {{x}} de {{y}}")
    ∷ ("onboard.node.title", "Nombra tu nodo")
    ∷ ("onboard.node.desc", "Dale una identidad y elige la ubicación de su entorno.")
    ∷ ("onboard.node.alias", "Alias del nodo")
    ∷ ("onboard.node.alias_ph", "Mi Lokinode")
    ∷ ("onboard.node.dir", "Entorno del nodo")
    ∷ ("onboard.node.advanced", "Ajustes de red avanzados")
    ∷ ("onboard.wallet.title", "Elige tu billetera")
    ∷ ("onboard.wallet.desc", "Empieza de cero o trae una billetera existente.")
    ∷ ("onboard.wallet.create", "Crear nueva billetera")
    ∷ ("onboard.wallet.create_sub", "Genera una nueva frase de recuperación de 24 palabras.")
    ∷ ("onboard.wallet.restore", "Restaurar billetera existente")
    ∷ ("onboard.wallet.restore_sub", "Desde una frase de 24 palabras o clave privada hex.")
    ∷ ("onboard.password.title", "Establece una contraseña")
    ∷ ("onboard.password.desc", "La escribirás cada vez que inicies el nodo.")
    ∷ ("onboard.password.label", "Contraseña")
    ∷ ("onboard.password.confirm", "Confirmar contraseña")
    ∷ ("onboard.password.warn", "No hay recuperación de contraseña. Guárdala en un lugar seguro.")
    ∷ ("onboard.restore.title", "Restaurar billetera")
    ∷ ("onboard.restore.desc", "Pega tus datos de recuperación — nunca se envían a ningún sitio.")
    ∷ ("onboard.restore.mnemonic", "Frase semilla")
    ∷ ("onboard.restore.hex", "Clave privada")
    ∷ ("onboard.restore.mnemonic_label", "Tu frase de recuperación de 24 palabras")
    ∷ ("onboard.restore.hex_label", "Tu clave privada (hex)")
    ∷ ("onboard.review.title", "Listo para iniciar")
    ∷ ("onboard.review.desc", "Echa un último vistazo y enciéndelo.")
    ∷ (
      "onboard.review.sync_warn",
      "Su primer lanzamiento se sincronizará con la cadena de bloques. Esto puede llevar algún tiempo dependiendo de su conexión.",
    )
    ∷ ("onboard.review.alias", "Alias")
    ∷ ("onboard.review.folder", "Carpeta")
    ∷ ("onboard.review.wallet", "Billetera")
    ∷ ("onboard.review.wallet_create", "Billetera nueva")
    ∷ ("onboard.review.wallet_mnemonic", "Restaurada desde frase semilla")
    ∷ ("onboard.review.wallet_hex", "Restaurada desde hex")
    ∷ ("onboard.review.network", "Red")
    ∷ ("onboard.review.start", "Iniciar nodo")
    ∷ (
      "onboard.review.hint_create",
      "Iniciaremos el demonio, generaremos la frase y desbloquearemos la billetera.",
    )
    ∷ (
      "onboard.review.hint_restore",
      "Iniciaremos el demonio y restauraremos la billetera — puede tardar unos minutos.",
    )
    ∷ ("onboard.seed.title", "Guarda tu frase de recuperación")
    ∷ (
      "onboard.seed.desc",
      "Estas 24 palabras restauran tu billetera. Quien las tenga posee tus monedas.",
    )
    ∷ (
      "onboard.seed.warn",
      "No las captures ni almacenes online. Anótalas en papel y mantenlas fuera de línea.",
    )
    ∷ ("onboard.seed.ack", "He anotado las 24 palabras en orden.")
    ∷ ("onboard.launch.verifying", "Verificando configuración…")
    ∷ ("onboard.launch.verifying_sub", "Asegurándonos de que todo esté listo.")
    ∷ ("onboard.launch.starting", "Arrancando el demonio")
    ∷ ("onboard.launch.starting_sub", "Iniciando el proceso flnd.")
    ∷ ("onboard.launch.waiting", "Arrancando")
    ∷ ("onboard.launch.waiting_sub", "Esperando a que el nodo esté en línea…")
    ∷ ("onboard.launch.reveal_title", "Tu frase de recuperación")
    ∷ ("onboard.launch.reveal_desc", "Escríbelas ahora — solo las mostramos esta vez.")
    ∷ ("onboard.launch.continue_init", "Crear mi billetera")
    ∷ ("onboard.launch.initializing", "Creando tu billetera")
    ∷ ("onboard.launch.initializing_sub", "Cifrando la billetera y preparando el nodo.")
    ∷ ("onboard.launch.done", "Listo")
    ∷ ("onboard.launch.error", "Falló el inicio")
    ∷ ("onboard.launch.dismiss", "Cerrar")
    ∷ ("onboard.errors.pwd_min", "La contraseña debe tener al menos 8 caracteres.")
    ∷ ("onboard.errors.pwd_match", "Las contraseñas no coinciden.")
    ∷ ("onboard.errors.mnemonic_len", "La frase debe tener exactamente 24 palabras.")
    ∷ ("onboard.errors.hex_required", "Introduce una clave privada hex para restaurar.")
    ∷ (
      "onboard.errors.wallet_exists",
      "Ya existe una billetera en esta carpeta. Elige una vacía o restaura en ella.",
    )
    ∷ (
      "onboard.errors.seed_gen_failed",
      "Error al generar la frase de recuperación. Inténtalo de nuevo.",
    )
    ∷ (
      "node.errors.missing_files",
      "Faltan archivos de datos del nodo — el directorio puede haber sido movido o eliminado.",
    )
    ∷ (
      "node.errors.corrupt_cert",
      "El certificado TLS está corrupto — puede ser necesario recrear el nodo.",
    )
    ∷ (
      "node.errors.connection_refused",
      "No se pudo conectar al demonio del nodo — comprueba los conflictos de puertos.",
    )
    ∷ ("node.errors.timeout", "El demonio del nodo superó el tiempo de espera al iniciarse.")
    ∷ (
      "node.errors.neutrino_corrupted",
      "Cabeceras Neutrino corruptas — toca para limpiar y reiniciar.",
    )
    ∷ ("node.errors.recover_failed", "Recuperación fallida")
    ∷ ("node.status.no_wallet", "Cartera no encontrada")
    ∷ (
      "node.status.sub.no_wallet",
      "Base de datos de cartera no encontrada. Vuelve atrás y recrea este nodo.",
    )
    ∷ ("common.back_home", "Volver al inicio")
    ∷ []
