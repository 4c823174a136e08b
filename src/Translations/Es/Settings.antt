-- ===== src/Translations/Es/Settings.antt =====
-- The Spanish texts of the main page and the settings, lines 1278 to 1372 of frontend/src/i18n/translations.ts.
use lokinode.Translations.Table.{Table}
use mathlib.Core.List.{[], ◌∷◌}

unfoldable pub texts : Table
texts =
    ("main.title", "Configurar Nodo")
    ∷ ("main.data_dir", "Entorno del nodo")
    ∷ ("main.starting", "Iniciando tu nodo…")
    ∷ ("main.start", "Iniciar Nodo")
    ∷ ("main.select_dir_title", "Localizar entorno del nodo")
    ∷ ("main.loading_default", "Cargando entorno predeterminado...")
    ∷ ("main.existing.badge", "Nodo existente encontrado")
    ∷ (
      "main.existing.desc",
      "Se detectó un entorno de nodo Flokicoin en esta ubicación. Puede iniciarlo directamente.",
    )
    ∷ ("main.existing.start", "Toca para iniciar")
    ∷ ("main.configure", "Configurar ajustes del nodo")
    ∷ ("main.errors.alias", "Se requiere un alias de nodo")
    ∷ ("main.errors.alias_invalid", "Alias de nodo no válido")
    ∷ ("main.errors.start_failed", "Error al iniciar")
    ∷ ("main.errors.config_error", "Error de configuración")
    ∷ ("main.errors.node_error", "Error del nodo")
    ∷ (
      "main.errors.not_a_node", "No se encontró ningún entorno de nodo existente en esta ubicación",
    )
    ∷ ("main.errors.dir_error", "Error al seleccionar el entorno")
    ∷ ("main.default_alias", "MyLokinode")
    ∷ ("config.alias_default_hint", "Will use default name")
    ∷ ("main.create_new", "Crear nuevo nodo")
    ∷ ("main.create_new_sub", "Inicializar un entorno nuevo.")
    ∷ ("main.open_existing", "Abrir nodo existente")
    ∷ ("main.open_existing_sub", "Resume desde un entorno de nodo existente.")
    ∷ ("main.browse_folder", "Elegir carpeta")
    ∷ ("main.status.offline", "Nodo Desconectado")
    ∷ ("main.status.starting", "Iniciando")
    ∷ ("main.power_hint", "Toca para iniciar")
    ∷ ("main.power_hint_starting", "Inicializando…")
    ∷ ("config.alias", "Alias del nodo")
    ∷ ("config.alias_ph", "p.ej. MiNodo")
    ∷ ("config.network", "Configuración de red")
    ∷ ("config.rest_cors", "REST CORS")
    ∷ ("config.rpc_listen", "Escucha RPC")
    ∷ ("config.rest_listen", "Escucha REST")
    ∷ ("network.restart_btn", "Reiniciar nodo")
    ∷ ("network.restarting", "Reiniciando...")
    ∷ ("network.restart.confirm", "¿Confirmar reinicio?")
    ∷ ("network.restart.confirm_action", "Haga clic de nuevo para confirmar")
    ∷ ("network.restart_sub", "Your node will be back online in a few seconds.")
    ∷ ("network.errors.invalid_config", "Configuration Issue")
    ∷ ("settings.title", "Configuración")
    ∷ ("security.title", "Seguridad")
    ∷ ("security.section", "Cambiar contraseña de cartera")
    ∷ ("security.current_pwd", "Contraseña actual")
    ∷ ("security.new_pwd", "Nueva contraseña")
    ∷ ("security.new_pwd_ph", "Mín. 8 caracteres")
    ∷ ("security.confirm_pwd", "Confirmar contraseña")
    ∷ ("security.update", "Actualizar contraseña")
    ∷ ("security.updating", "Actualizando…")
    ∷ ("security.update_sub", "Re-keying your wallet. This will take a moment.")
    ∷ ("security.updated", "Contraseña actualizada exitosamente")
    ∷ ("security.updated_ok", "Contraseña actualizada exitosamente")
    ∷ ("security.failed", "Error")
    ∷ ("security.stop_prompt", "¿Detener el nodo ahora para actualizar la contraseña?")
    ∷ ("security.update_failed", "Actualización fallida")
    ∷ ("security.error.timeout", "Tiempo de espera agotado esperando a que el nodo se bloquee")
    ∷ ("validation.required", "Requerido")
    ∷ ("validation.min8", "Mín. 8 caracteres")
    ∷ ("validation.no_match", "No coincide")
    ∷ ("validation.dir_required", "Se requiere la ubicación del entorno")
    ∷ ("validation.dir_not_empty", "El entorno debe estar vacío o ser nuevo")
    ∷ ("validation.invalid_cors", "Debe ser una URL válida o *")
    ∷ ("validation.invalid_listen", "Formato inválido (ej. 0.0.0.0:10005)")
    ∷ ("network.public_node", "Nodo público")
    ∷ ("network.public_node_sub", "Acepta conexiones P2P entrantes y se anuncia en la red")
    ∷ ("network.restart_hint", "Tiene efecto al reiniciar")
    ∷ (
      "network.restart_required",
      "El nodo se está ejecutando con configuraciones de red desactualizadas. Reinicia para aplicar.",
    )
    ∷ ("network.public_ip", "IP pública")
    ∷ ("network.public_ip_sub", "Tu IP anunciada a los pares. Puerto 5521 por defecto si se omite.")
    ∷ ("network.public_ip_ph", "p.ej. 203.0.113.42 o 203.0.113.42:5521")
    ∷ ("network.ip_error", "Dirección IP inválida")
    ∷ ("network.ip_missing", "Sin IP — el nodo escuchará pero no será descubrible")
    ∷ ("network.group.identity", "Identidad del nodo")
    ∷ ("network.group.visibility", "Visibilidad pública")
    ∷ ("network.group.endpoints", "Endpoints y CORS")
    ∷ ("network.group.credentials", "Credenciales")
    ∷ ("network.cors", "Origen CORS de REST")
    ∷ (
      "network.cors_sub",
      "Origen del navegador permitido para la API REST. Déjalo vacío para deshabilitar CORS.",
    )
    ∷ ("network.cors_ph", "p.ej. http://localhost:3000")
    ∷ ("network.pubkey", "Pubkey del nodo")
    ∷ ("network.grpc", "gRPC")
    ∷ ("network.rest", "REST")
    ∷ ("network.data_dir", "Directorio de datos")
    ∷ ("network.macaroon", "Macaroon administrador")
    ∷ ("network.tls", "Certificado TLS")
    ∷ ("network.hex_locked", "Disponible tras desbloquear")
    ∷ ("receive.title", "Recibir FLC")
    ∷ ("receive.new_addr", "Generar nueva dirección")
    ∷ ("receive.copied", "Copiado")
    ∷ ("receive.copy_desc", "Dirección copiada al portapapeles")
    ∷ ("receive.payment_received", "Pago recibido")
    ∷ ("receive.addr_type", "Tipo de dirección")
    ∷ ("receive.segwit", "SegWit")
    ∷ ("receive.taproot", "Taproot")
    ∷ []
